-- ===== src/Wire/Fields.antt =====
-- What each kind of field that apps/console-api/src/gen writes is read back as.
use sharpn.Prelude.{
  ℕ, ◌<◌, ◌≡◌, refl, inl, inr, Option, none, some, arith, Option-cases, length, All,
}
use sharpn.Prelude.Decimal.{Text}
use sharpn.Wire.{Reader, limit, IsScalar, Wire, Outcome, ok, throws, spins, read_into, used, nested}
use sharpn.Wire.Reading.{Ends, Ends-le}

-- A text that is written as it is.
pub record IsWritten (w : Wire) (t : Text) : Type 0 where
  pub scalar : All IsScalar t
  pub short : length (w.string t) < limit

-- A value that was read leaves what is behind it.
pub read_into-Ends :
    {A M : Type 0} (put : A → M) (o : Option (A × Reader)) (n : ℕ)
    → ((a : A) (s : Reader) → o ≡ some (a, s) → length s.rest < n)
    → Ends n (read_into put o)
read_into-Ends put none n takes = tt
read_into-Ends put (some (a, s)) n takes = omega (arith, takes a s refl)

pub used-Ends :
    {N M : Type 0} (put : N → M) (o : Outcome N) (n : ℕ) → Ends n o → Ends n (used put o)
used-Ends put (ok v r) n e = e
used-Ends put throws n e = tt
used-Ends put spins n e = e

module _ (w : Wire) where
  pub nested-Ends :
      {N M : Type 0} (decode : ℕ → Reader → Outcome N) (put : N → M) (r : Reader)
      → ((len : ℕ) (s : Reader) → Ends (length s.rest) (decode len s))
      → Ends (length r.rest) (nested w decode put (w.read_uint32 r))
  nested-Ends decode put r ends = elim (Option-cases (w.read_uint32 r)) [
    | inl failed ↦ rw failed tt
    | inr ((len, s), read) ↦ rw read (
        used-Ends put (decode len s) (length r.rest) (
          Ends-le (length s.rest) (length r.rest) (decode len s)
            (omega (arith, w.uint32_takes r s len read)) (ends len s)))
  ]
