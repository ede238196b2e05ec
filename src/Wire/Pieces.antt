-- ===== src/Wire/Pieces.antt =====
-- What the pieces of an `encode` of apps/console-api/src/gen are read back as.
use sharpn.Prelude.{
  ℕ, zero, suc, ◌+◌, ◌≤◌, ◌<◌, ◌≡◌, refl, ap, ◌∙◌, true, false, some, [], ◌++◌, arith, ltb, leb,
  lt→ltb, length, length-append,
}
use mathlib.Core.List.{append_assoc}
use sharpn.Wire.{Bytes, reader, limit, Wire, ok, Cases, round, loop, decode_with}
use sharpn.Wire.Reading.{IsLawful, loop_enough}

-- Where the loop stands at a piece, it goes on behind it with another message.
pub record Reads (w : Wire) {M : Type 0} (cases : Cases M) (piece : Bytes) (m m' : M) : Type 0 where
  pub goes_on :
      (at : ℕ) (rest : Bytes) (end fuel : ℕ)
      → at + length piece ≤ end
      → length (piece ++ rest) < fuel
      → loop w cases fuel end m (reader at (piece ++ rest))
        ≡ loop w cases fuel end m' (reader (at + length piece) rest)

module _ (w : Wire) where
  -- A number takes at least one byte.
  uint32-pos : (n : ℕ) → n < limit → 0 < length (w.uint32 n)
  uint32-pos n small =
      let less = w.uint32_takes (reader 0 (w.uint32 n ++ [])) _ n (w.read-uint32 n 0 [] small) in
      omega (arith, less, length-append (w.uint32 n) [])

  pub nothing-Reads : {M : Type 0} (cases : Cases M) (m : M) → Reads w cases [] m m
  nothing-Reads cases m = record {
    goes_on =
        λ at rest end fuel le lt. ap (λ p. loop w cases fuel end m (reader p rest)) (omega arith);
  }

  field_goes_on :
      {M : Type 0} (cases : Cases M) (lawful : IsLawful cases) (tag : ℕ) (body : Bytes) (m m' : M)
      → tag < limit
      → ((at : ℕ) (rest : Bytes)
          → cases tag m (reader at (body ++ rest)) ≡ some (ok m' (reader (at + length body) rest)))
      → (at : ℕ) (rest : Bytes) (end fuel : ℕ) → at + length (w.uint32 tag ++ body) ≤ end
      → length ((w.uint32 tag ++ body) ++ rest) < fuel
      → loop w cases fuel end m (reader at ((w.uint32 tag ++ body) ++ rest))
        ≡ loop w cases fuel end m' (reader (at + length (w.uint32 tag ++ body)) rest)
  unfolding loop round
  field_goes_on cases lawful tag body m m' small takes at rest end zero le lt =
      absurd (omega (arith, lt))
  field_goes_on cases lawful tag body m m' small takes at rest end (suc fuel) le lt =
      let lengths = length-append (w.uint32 tag) body in
      let same = append_assoc (w.uint32 tag) body rest in
      let sizes =
        ap length same
        ∙ length-append (w.uint32 tag) (body ++ rest)
        ∙ ap (λ n. length (w.uint32 tag) + n) (length-append body rest) in
      let some_bytes = uint32-pos tag small in
      let here : ltb at end ≡ true = lt→ltb at end (omega (arith, le, lengths, some_bytes)) in
      let behind : (at + length (w.uint32 tag)) + length body ≡ at + length (w.uint32 tag ++ body) =
        omega (arith, lengths) in
      let tagged = w.read-uint32 tag at (body ++ rest) small in
      let taking = takes (at + length (w.uint32 tag)) rest in
      ap (λ bs. loop w cases (suc fuel) end m (reader at bs)) same
      ∙ rw (here, tagged, taking, behind)
          (loop_enough w cases lawful fuel (suc fuel) end m'
            (reader (at + length (w.uint32 tag ++ body)) rest)
            (omega (arith, lt, sizes, some_bytes)) (omega (arith, lt, sizes)))

  -- A tag with what one of the cases takes.
  pub field-Reads :
      {M : Type 0} (cases : Cases M) (lawful : IsLawful cases) (tag : ℕ) (body : Bytes) (m m' : M)
      → tag < limit
      → ((at : ℕ) (rest : Bytes)
          → cases tag m (reader at (body ++ rest)) ≡ some (ok m' (reader (at + length body) rest)))
      → Reads w cases (w.uint32 tag ++ body) m m'
  field-Reads cases lawful tag body m m' small takes = record {
    goes_on = field_goes_on cases lawful tag body m m' small takes;
  }

  -- A message whose fields are read back is decoded, and what is behind it left.
  pub fields-decoded :
      {M : Type 0} (cases : Cases M) (base m : M) (piece : Bytes) (depth at : ℕ) (rest : Bytes)
      → depth < 100
      → Reads w cases piece base m
      → decode_with w cases base depth (length piece) (reader at (piece ++ rest))
        ≡ ok m (reader (at + length piece) rest)
  unfolding decode_with loop
  fields-decoded cases base m piece depth at rest fine reads =
      let shallow : leb 100 depth ≡ false = ground (arith, fine) in
      let ends : ltb (at + length piece) (at + length piece) ≡ false = ground arith in
      rw shallow (
        reads.goes_on at rest (at + length piece) (suc (length (piece ++ rest))) (omega arith)
          (omega arith)
        ∙ rw ends refl)

-- One piece behind another.
infixl 4 ◌▹◌
pub ◌▹◌ :
    {w : Wire} {M : Type 0} {cases : Cases M} {p q : Bytes} {m m' m2 : M}
    → Reads w cases p m m'
    → Reads w cases q m' m2
    → Reads w cases (p ++ q) m m2
◌▹◌ {w} {M} {cases} {p} {q} {m} {m'} {m2} first second = record {
  goes_on = λ at rest end fuel le lt.
      let lengths = length-append p q in
      let same = append_assoc p q rest in
      let all_of = length-append p (q ++ rest) in
      let sizes = ap length same in
      ap (λ bs. loop w cases fuel end m (reader at bs)) same
      ∙ first.goes_on at (q ++ rest) end fuel (omega (arith, le, lengths))
          (omega (arith, lt, sizes))
      ∙ second.goes_on (at + length p) rest end fuel (omega (arith, le, lengths))
          (omega (arith, lt, sizes, all_of))
      ∙ ap (λ k. loop w cases fuel end m2 (reader k rest)) (omega (arith, lengths));
}
