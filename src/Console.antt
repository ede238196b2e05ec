-- ===== src/Console.antt =====
-- apps/console/src: the Console, as a browser runs it.
pub mod Pending
pub mod Sending
pub mod Live
pub mod Api
pub mod Temperature
pub mod Gamut
pub mod Colour
pub mod Listing
pub mod EventStream
pub mod Archetype
pub mod Shown
