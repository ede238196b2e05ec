-- ===== src/Wire/Reading.antt =====
-- What the loop of every `decode` of apps/console-api/src/gen does: it ends, and it reads back what the
-- pieces of an `encode` wrote.
use sharpn.Prelude.{
  ℕ, zero, suc, ◌+◌, ◌%◌, ◌≤◌, ◌<◌, ◌≡◌, refl, ap, inl, inr, ◌||◌, Option, none, some, arith, ltb,
  leb, ◌==◌, if◌then◌else◌, Bool-cases, Option-cases, length,
}
use sharpn.Wire.{
  Reader, Wire, Outcome, ok, throws, spins, Cases, Round, goes, stops, fails, runs_out, taken,
  then_on, leave, switch, round, loop, decode_with,
}

-- An outcome that leaves no more bytes than there were, if it leaves any; no loop spins.
abbrev pub Ends : {M : Type 0} → ℕ → Outcome M → Type 0
Ends n (ok m r) = length r.rest ≤ n
Ends n throws = Unit {0}
Ends n spins = ⊥

abbrev pub EndsIf : {M : Type 0} → ℕ → Option (Outcome M) → Type 0
EndsIf n none = Unit {0}
EndsIf n (some o) = Ends n o

-- The cases of a message put no byte back and do not spin.
abbrev pub IsLawful : {M : Type 0} → Cases M → Type 0
IsLawful {M} cases = (tag : ℕ) (m : M) (r : Reader) → EndsIf (length r.rest) (cases tag m r)

abbrev RoundEnds : {M : Type 0} → ℕ → Round M → Type 0
RoundEnds n (goes m r) = length r.rest < n
RoundEnds n (stops m r) = length r.rest ≤ n
RoundEnds n fails = Unit {0}
RoundEnds n runs_out = ⊥

taken-Ends : {M : Type 0} (n k : ℕ) (o : Outcome M) → n < k → Ends n o → RoundEnds k (taken o)
taken-Ends n k (ok m r) lt e = omega (arith, lt, e)
taken-Ends n k throws lt e = tt
taken-Ends n k spins lt e = e

then_on-Ends :
    {M : Type 0} (n : ℕ) (rd : Round M) (next : M → Reader → Outcome M)
    → RoundEnds n rd
    → ((m : M) (s : Reader) → length s.rest < n → Ends n (next m s))
    → Ends n (then_on rd next)
then_on-Ends n (goes m s) next e k = k m s e
then_on-Ends n (stops m s) next e k = e
then_on-Ends n fails next e k = tt
then_on-Ends n runs_out next e k = e

then_on_same :
    {M : Type 0} (n : ℕ) (rd : Round M) (next other : M → Reader → Outcome M)
    → RoundEnds n rd
    → ((m : M) (s : Reader) → length s.rest < n → next m s ≡ other m s)
    → then_on rd next ≡ then_on rd other
then_on_same n (goes m s) next other e k = k m s e
then_on_same n (stops m s) next other e k = refl
then_on_same n fails next other e k = refl
then_on_same n runs_out next other e k = refl

pub Ends-le : {M : Type 0} (n k : ℕ) (o : Outcome M) → n ≤ k → Ends n o → Ends k o
Ends-le n k (ok m r) le e = omega (arith, le, e)
Ends-le n k throws le e = tt
Ends-le n k spins le e = e

module _ (w : Wire) where
  leave-Ends :
      {M : Type 0} (n tag : ℕ) (m : M) (r : Reader)
      → length r.rest < n
      → RoundEnds n (leave w tag m r)
  leave-Ends n tag m r lt = elim (Bool-cases ((tag % 8 == 4) || (tag == 0))) [
    | inl over ↦ rw over (omega (arith, lt))
    | inr on ↦ elim (Option-cases (w.skip (tag % 8) r)) [
      | inl failed ↦ rw (on, failed) tt
      | inr (s, skipped) ↦ rw (on, skipped) (omega (arith, lt, w.skip_takes (tag % 8) r s skipped))
    ]
  ]

  switch-Ends :
      {M : Type 0} (n tag : ℕ) (m : M) (r : Reader) (o : Option (Outcome M))
      → length r.rest < n
      → EndsIf (length r.rest) o
      → RoundEnds n (switch w tag m r o)
  switch-Ends n tag m r none lt e = leave-Ends n tag m r lt
  switch-Ends n tag m r (some o) lt e = taken-Ends (length r.rest) n o lt e

  module _ {M : Type 0} (cases : Cases M) (lawful : IsLawful cases) where
    round-Ends : (m : M) (r : Reader) → RoundEnds (length r.rest) (round w cases m r)
    unfolding round
    round-Ends m r = elim (Option-cases (w.read_uint32 r)) [
      | inl failed ↦ rw failed tt
      | inr ((tag, s), read) ↦ rw read (
          switch-Ends (length r.rest) tag m s (cases tag m s) (w.uint32_takes r s tag read)
            (lawful tag m s))
    ]

    pub loop-Ends :
        (fuel end : ℕ) (m : M) (r : Reader)
        → length r.rest < fuel
        → Ends (length r.rest) (loop w cases fuel end m r)
    unfolding loop
    loop-Ends zero end m r lt = absurd (omega (arith, lt))
    loop-Ends (suc fuel) end m r lt = elim (Bool-cases (ltb r.at end)) [
      | inl more ↦ rw more (
          then_on-Ends (length r.rest) (round w cases m r) (loop w cases fuel end) (round-Ends m r)
            (λ m' s less.
              Ends-le (length s.rest) (length r.rest) (loop w cases fuel end m' s)
                (omega (arith, less)) (loop-Ends fuel end m' s (omega (arith, less, lt)))))
      | inr over ↦ rw over (omega arith)
    ]

    -- Fuel beyond what is enough makes no difference.
    pub loop_enough :
        (fuel more end : ℕ) (m : M) (r : Reader)
        → length r.rest < fuel
        → length r.rest < more
        → loop w cases fuel end m r ≡ loop w cases more end m r
    unfolding loop
    loop_enough zero more end m r lt lt2 = absurd (omega (arith, lt))
    loop_enough (suc fuel) zero end m r lt lt2 = absurd (omega (arith, lt2))
    loop_enough (suc fuel) (suc more) end m r lt lt2 =
        ap (λ o. if ltb r.at end then o else ok m r)
          (then_on_same (length r.rest) (round w cases m r) (loop w cases fuel end)
            (loop w cases more end) (round-Ends m r)
            (λ m' s less.
              loop_enough fuel more end m' s (omega (arith, less, lt)) (omega (arith, less, lt2))))

    -- A decoder ends, at any depth, whatever length it is told and whatever bytes there are.
    pub decode-Ends :
        (base : M) (depth len : ℕ) (r : Reader)
        → Ends (length r.rest) (decode_with w cases base depth len r)
    unfolding decode_with
    decode-Ends base depth len r = elim (Bool-cases (leb 100 depth)) [
      | inl deep ↦ rw deep tt
      | inr fine ↦ rw fine (loop-Ends (suc (length r.rest)) (r.at + len) base r (omega arith))
    ]
