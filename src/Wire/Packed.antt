-- ===== src/Wire/Packed.antt =====
-- The inner loop of a packed field of apps/console-api/src/gen: it ends, and reads back what was packed.
use sharpn.Prelude.{
  ℕ, zero, suc, ◌+◌, ◌<◌, ◌≡◌, refl, ap, ◌∙◌, inl, inr, true, false, some, List, [], ◌∷◌, ◌++◌,
  arith, ltb, lt→ltb, Bool-cases, Option-cases, length, length-append, All,
}
use sharpn.Prelude.Int.{ℤ}
use mathlib.Core.List.{append-nil, append_assoc}
use sharpn.Wire.{
  Bytes, Reader, reader, limit, IsInt32, Wire, ok, Cases, delimited, each, packed, unpack,
}
use sharpn.Wire.Reading.{IsLawful, Ends, Ends-le}
use sharpn.Wire.Pieces.{Reads, field-Reads}
use sharpn.Wire.Fields.{used-Ends}
use sharpn.Wire.Nested.{append_cons}

module _ (w : Wire) where
  int32-pos : (v : ℤ) → IsInt32 v → 0 < length (w.int32 v)
  int32-pos v fits =
      let less = w.int32_takes (reader 0 (w.int32 v ++ [])) _ v (w.read-int32 v 0 [] fits) in
      omega (arith, less, length-append (w.int32 v) [])

  packed-Ends :
      (fuel end : ℕ) (vs : List ℤ) (r : Reader)
      → length r.rest < fuel
      → Ends (length r.rest) (packed w fuel end vs r)
  unfolding packed
  packed-Ends zero end vs r lt = absurd (omega (arith, lt))
  packed-Ends (suc fuel) end vs r lt = elim (Bool-cases (ltb r.at end)) [
    | inr over ↦ rw over (omega arith)
    | inl more ↦ elim (Option-cases (w.read_int32 r)) [
      | inl failed ↦ rw (more, failed) tt
      | inr ((v, s), read) ↦
          let less = w.int32_takes r s v read in
          rw (more, read)
            (Ends-le (length s.rest) (length r.rest) (packed w fuel end (vs ++ v ∷ []) s)
              (omega (arith, less))
              (packed-Ends fuel end (vs ++ v ∷ []) s (omega (arith, less, lt))))
    ]
  ]

  pub unpack-Ends :
      {M : Type 0} (vs : List ℤ) (put : List ℤ → M) (r : Reader)
      → Ends (length r.rest) (unpack w vs put (w.read_uint32 r))
  unpack-Ends vs put r = elim (Option-cases (w.read_uint32 r)) [
    | inl failed ↦ rw failed tt
    | inr ((len, s), read) ↦
        let inner = packed w (suc (length s.rest)) (len + s.at) vs s in
        rw read (
          used-Ends put inner (length r.rest) (
            Ends-le (length s.rest) (length r.rest) inner
              (omega (arith, w.uint32_takes r s len read))
              (packed-Ends (suc (length s.rest)) (len + s.at) vs s (omega arith))))
  ]

  packed_back :
      (fuel end at : ℕ) (seen vs : List ℤ) (rest : Bytes)
      → All IsInt32 vs
      → end ≡ at + length (each w.int32 vs)
      → length (each w.int32 vs ++ rest) < fuel
      → packed w fuel end seen (reader at (each w.int32 vs ++ rest))
        ≡ ok (seen ++ vs) (reader end rest)
  unfolding packed
  packed_back zero end at seen vs rest fits ends lt = absurd (omega (arith, lt))
  packed_back (suc fuel) end at seen [] rest fits ends lt =
      let over : ltb at end ≡ false = ground (arith, ends) in
      let there : at ≡ end = omega (arith, ends) in
      rw (over, append-nil seen) (ap (λ k. ok seen (reader k rest)) there)
  packed_back (suc fuel) end at seen (v ∷ vs) rest (fit, fits) ends lt =
      let more = int32-pos v fit in
      let lengths = length-append (w.int32 v) (each w.int32 vs) in
      let same = append_assoc (w.int32 v) (each w.int32 vs) rest in
      let sizes = ap length same ∙ length-append (w.int32 v) (each w.int32 vs ++ rest) in
      let here : ltb at end ≡ true = lt→ltb at end (omega (arith, ends, lengths, more)) in
      rw (here, same, w.read-int32 v at (each w.int32 vs ++ rest) fit)
        (packed_back fuel end (at + length (w.int32 v)) (seen ++ v ∷ []) vs rest fits
          (omega (arith, ends, lengths)) (omega (arith, lt, sizes, more)))
      ∙ ap (λ us. ok us (reader end rest)) (append_cons seen v vs)

  pub packed-Reads :
      {M : Type 0} (cases : Cases M) (lawful : IsLawful cases) (tag : ℕ) (put : List ℤ → M)
      (seen vs : List ℤ)
      → tag < limit
      → ((r : Reader) → cases tag (put seen) r ≡ some (unpack w seen put (w.read_uint32 r)))
      → All IsInt32 vs
      → length (each w.int32 vs) < limit
      → Reads w cases (w.uint32 tag ++ delimited w (each w.int32 vs)) (put seen) (put (seen ++ vs))
  packed-Reads cases lawful tag put seen vs small takes fits short =
      field-Reads w cases lawful tag (delimited w body) (put seen) (put (seen ++ vs)) small
        (λ at rest.
          let start = at + length (w.uint32 len) in
          let same = append_assoc (w.uint32 len) body rest in
          let behind : len + start ≡ at + length (w.uint32 len ++ body) =
            omega (arith, length-append (w.uint32 len) body) in
          takes (reader at (delimited w body ++ rest))
          ∙ rw
              (
                same,
                w.read-uint32 len at (body ++ rest) short,
                packed_back (suc (length (body ++ rest))) (len + start) start seen vs rest fits
                    (omega arith) (omega arith),
                behind,
              )
              refl)
    where
      body : Bytes
      body = each w.int32 vs

      len : ℕ
      len = length body
