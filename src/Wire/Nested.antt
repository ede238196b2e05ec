-- ===== src/Wire/Nested.antt =====
-- What messages within messages, and repeated fields, are read back as.
use sharpn.Prelude.{
  ℕ, ◌+◌, ◌<◌, ◌≡◌, refl, sym, ap, subst, ◌∙◌, some, List, [], ◌∷◌, ◌++◌, arith, length,
  length-append, All,
}
use mathlib.Core.List.{append-nil, append_assoc}
use sharpn.Wire.{Bytes, Reader, reader, limit, Wire, Outcome, ok, Cases, nested, delimited, each}
use sharpn.Wire.Reading.{IsLawful}
use sharpn.Wire.Pieces.{Reads, nothing-Reads, ◌▹◌, field-Reads}

-- A message within another: its bytes are decoded, and their number fits in the length before them.
pub record IsDecoded {N : Type 0} (bytes : Bytes) (decode : ℕ → Reader → Outcome N) (v : N)
    : Type 0 where
  pub short : length bytes < limit
  pub decoded :
      (at : ℕ) (rest : Bytes)
      → decode (length bytes) (reader at (bytes ++ rest)) ≡ ok v (reader (at + length bytes) rest)

pub append_cons :
    {N : Type 0} (us : List N) (v : N) (vs : List N) → (us ++ v ∷ []) ++ vs ≡ us ++ v ∷ vs
append_cons [] v vs = refl
append_cons (u ∷ us) v vs = ap (λ rest. u ∷ rest) (append_cons us v vs)

module _ (w : Wire) {M : Type 0} (cases : Cases M) where
  pub nested-Reads :
      {N : Type 0} (lawful : IsLawful cases) (tag : ℕ) (decode : ℕ → Reader → Outcome N)
      (put : N → M) (m : M) (bytes : Bytes) (v : N)
      → tag < limit
      → ((r : Reader) → cases tag m r ≡ some (nested w decode put (w.read_uint32 r)))
      → IsDecoded bytes decode v
      → Reads w cases (w.uint32 tag ++ delimited w bytes) m (put v)
  nested-Reads lawful tag decode put m bytes v small takes d =
      field-Reads w cases lawful tag (delimited w bytes) m (put v) small (λ at rest.
        let len = length bytes in
        let same = append_assoc (w.uint32 len) bytes rest in
        let behind : (at + length (w.uint32 len)) + len ≡ at + length (w.uint32 len ++ bytes) =
          omega (arith, length-append (w.uint32 len) bytes) in
        takes (reader at (delimited w bytes ++ rest))
        ∙ rw
            (
              same,
              w.read-uint32 len at (bytes ++ rest) d.short,
              d.decoded (at + length (w.uint32 len)) rest,
              behind,
            )
            refl)

  -- The values of a repeated field are read back one behind the other.
  pub each-Reads :
      {N : Type 0} (write : N → Bytes) (P : N → Type 0) (put : List N → M) (seen vs : List N)
      → ((seen : List N) (v : N) → P v → Reads w cases (write v) (put seen) (put (seen ++ v ∷ [])))
      → All P vs
      → Reads w cases (each write vs) (put seen) (put (seen ++ vs))
  each-Reads write P put seen [] one fine =
      subst (λ s. Reads w cases [] (put seen) (put s)) (sym (append-nil seen))
        (nothing-Reads w cases (put seen))
  each-Reads write P put seen (v ∷ vs) one (fits, fine) =
      subst (λ s. Reads w cases (write v ++ each write vs) (put seen) (put s))
        (append_cons seen v vs)
        (one seen v fits ▹ each-Reads write P put (seen ++ v ∷ []) vs one fine)
