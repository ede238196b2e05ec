-- ===== src/Gen.antt =====
-- The bindings generated from the contract, as far as the program reads them.
pub mod Archetype
pub mod Rtype
