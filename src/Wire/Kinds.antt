-- ===== src/Wire/Kinds.antt =====
-- The kinds of value that a field of a message of apps/console-api/src/gen holds.
use sharpn.Prelude.{
  ℕ, zero, suc, ◌+◌, ◌<◌, ◌≡◌, refl, sym, subst, ◌∙◌, ◌≢◌, inl, inr, Bool, true, false, Option,
  none, some, List, [], ◌∷◌, ◌++◌, arith, ltb, ◌==◌, ltb→lt, Bool-cases, length, All,
}
use sharpn.Prelude.Int.{ℤ, pos, negsuc}
use sharpn.Prelude.Decimal.{Text}
use sharpn.Wire.{
  uint32_field, string_field, int32_field, Bytes, Reader, reader, limit, IsInt32, IsDouble,
  minus_zero, Wire, Outcome, Cases, one_of, read_into, unpack, delimited, each, optional_field,
  double_field, bool_field,
}
use sharpn.Wire.Reading.{Ends, IsLawful}
use sharpn.Wire.Pieces.{Reads, nothing-Reads, field-Reads}
use sharpn.Wire.Fields.{IsWritten, read_into-Ends}
use sharpn.Wire.Nested.{each-Reads}
use sharpn.Wire.Packed.{packed-Reads}

-- How a value is written and read, and which values are read back.
pub record Kind (A : Type 0) : Type 1 where
  pub write : A → Bytes
  pub read : Reader → Option (A × Reader)
  pub Fits : A → Type 0
  pub back :
      (v : A) (at : ℕ) (rest : Bytes)
      → Fits v
      → read (reader at (write v ++ rest)) ≡ some (v, reader (at + length (write v)) rest)
  pub takes : (r s : Reader) (v : A) → read r ≡ some (v, s) → length s.rest < length r.rest

abbrev pub string_kind : Wire → Kind Text
string_kind w = record {
  write = w.string;
  read = w.read_string;
  Fits = IsWritten w;
  back = λ t at rest fits. w.read-string t at rest fits.scalar fits.short;
  takes = w.string_takes;
}

abbrev pub int32_kind : Wire → Kind ℤ
int32_kind w = record {
  write = w.int32;
  read = w.read_int32;
  Fits = IsInt32;
  back = w.read-int32;
  takes = w.int32_takes;
}

abbrev pub uint32_kind : Wire → Kind ℕ
uint32_kind w = record {
  write = w.uint32;
  read = w.read_uint32;
  Fits = λ n. n < limit;
  back = w.read-uint32;
  takes = w.uint32_takes;
}

abbrev pub double_kind : Wire → Kind ℕ
double_kind w = record {
  write = w.double;
  read = w.read_double;
  Fits = IsDouble;
  back = w.read-double;
  takes = w.double_takes;
}

abbrev pub bool_kind : Wire → Kind Bool
bool_kind w = record {
  write = w.bool;
  read = w.read_bool;
  Fits = λ b. Unit {0};
  back = λ b at rest fits. w.read-bool b at rest;
  takes = w.bool_takes;
}

abbrev pub IfSome : {A : Type 0} → (A → Type 0) → Option A → Type 0
IfSome P none = Unit {0}
IfSome P (some v) = P v

pub any_bool : (o : Option Bool) → IfSome (λ b. Unit {0}) o
any_bool none = tt
any_bool (some b) = tt

-- A number that a message may hold where it leaves out a zero.
abbrev pub IsPlain : ℕ → Type 0
IsPlain bits = IsDouble bits × (bits ≢ minus_zero)

-- A row puts no byte back, and does not spin.
abbrev pub RowEnds : {M : Type 0} → ℕ × (M → Reader → Outcome M) → Type 0
RowEnds {M} row = (m : M) (r : Reader) → Ends (length r.rest) (row.1 m r)

pub one_of-IsLawful :
    {M : Type 0} (rows : List (ℕ × (M → Reader → Outcome M)))
    → All RowEnds rows
    → IsLawful (one_of rows)
one_of-IsLawful [] ends tag m r = tt
one_of-IsLawful (row ∷ rows) (end, ends) tag m r = elim (Bool-cases (tag == row.0)) [
  | inl same ↦ rw same (end m r)
  | inr other ↦ rw other (one_of-IsLawful rows ends tag m r)
]

pub kind-Ends :
    {A M : Type 0} (k : Kind A) (put : A → M) (r : Reader)
    → Ends (length r.rest) (read_into put (k.read r))
kind-Ends k put r = read_into-Ends put (k.read r) (length r.rest) (λ v s e. k.takes r s v e)

-- What a decoder starts with and does with a field, at some depth.
pub record Decoder (M : Type 0) : Type 0 where
  pub base : M
  pub cases : Cases M
  pub lawful : IsLawful cases

module _ {M : Type 0} (w : Wire) (d : Decoder M) (tag : ℕ) (small : ltb tag limit ≡ true) where
  small-lt : tag < limit
  small-lt = ltb→lt tag limit small

  pub kind-Reads :
      {A : Type 0} (k : Kind A) (put : A → M) (m : M) (v : A)
      → ((r : Reader) → d.cases tag m r ≡ some (read_into put (k.read r)))
      → k.Fits v
      → Reads w d.cases (w.uint32 tag ++ k.write v) m (put v)
  kind-Reads k put m v takes fits =
      field-Reads w d.cases d.lawful tag (k.write v) m (put v) small-lt
        (λ at rest. takes (reader at (k.write v ++ rest)) ∙ rw (k.back v at rest fits) refl)

  pub optional-Reads :
      {A : Type 0} (k : Kind A) (put : Option A → M) (o : Option A)
      → ((r : Reader) → d.cases tag (put none) r ≡ some (read_into (λ v. put (some v)) (k.read r)))
      → IfSome k.Fits o
      → Reads w d.cases (optional_field w tag k.write o) (put none) (put o)
  optional-Reads k put none takes fits = nothing-Reads w d.cases (put none)
  optional-Reads k put (some v) takes fits =
      kind-Reads k (λ v. put (some v)) (put none) v takes fits

  pub repeated-Reads :
      {A : Type 0} (k : Kind A) (put : List A → M) (vs : List A)
      → ((vs : List A) (r : Reader)
          → d.cases tag (put vs) r ≡ some (read_into (λ v. put (vs ++ v ∷ [])) (k.read r)))
      → All k.Fits vs
      → Reads w d.cases (each (λ v. w.uint32 tag ++ k.write v) vs) (put []) (put vs)
  repeated-Reads k put vs takes fits =
      each-Reads w d.cases (λ v. w.uint32 tag ++ k.write v) k.Fits put [] vs
        (λ seen v fit. kind-Reads k (λ v. put (seen ++ v ∷ [])) (put seen) v (takes seen) fit) fits

  pub types-Reads :
      (put : List ℤ → M) (vs : List ℤ)
      → ((r : Reader) → d.cases tag (put []) r ≡ some (unpack w [] put (w.read_uint32 r)))
      → All IsInt32 vs × (length (each w.int32 vs) < limit)
      → Reads w d.cases (w.uint32 tag ++ delimited w (each w.int32 vs)) (put []) (put vs)
  types-Reads put vs takes (fits, short) =
      packed-Reads w d.cases d.lawful tag put [] vs small-lt takes fits short

  -- A field that is left out holds what the message starts with.
  pub string_field-Reads :
      (put : Text → M) (t : Text)
      → ((r : Reader) → d.cases tag (put []) r ≡ some (read_into put (w.read_string r)))
      → IsWritten w t
      → Reads w d.cases (string_field w tag t) (put []) (put t)
  string_field-Reads put [] takes fits = nothing-Reads w d.cases (put [])
  string_field-Reads put (c ∷ cs) takes fits =
      kind-Reads (string_kind w) put (put []) (c ∷ cs) takes fits

  pub int32_field-Reads :
      (put : ℤ → M) (v : ℤ)
      → ((r : Reader) → d.cases tag (put (pos 0)) r ≡ some (read_into put (w.read_int32 r)))
      → IsInt32 v
      → Reads w d.cases (int32_field w tag v) (put (pos 0)) (put v)
  int32_field-Reads put (pos zero) takes fits = nothing-Reads w d.cases (put (pos 0))
  int32_field-Reads put (pos (suc n)) takes fits =
      kind-Reads (int32_kind w) put (put (pos 0)) (pos (suc n)) takes fits
  int32_field-Reads put (negsuc n) takes fits =
      kind-Reads (int32_kind w) put (put (pos 0)) (negsuc n) takes fits

  pub uint32_field-Reads :
      (put : ℕ → M) (n : ℕ)
      → ((r : Reader) → d.cases tag (put 0) r ≡ some (read_into put (w.read_uint32 r)))
      → n < limit
      → Reads w d.cases (uint32_field w tag n) (put 0) (put n)
  uint32_field-Reads put zero takes fits = nothing-Reads w d.cases (put 0)
  uint32_field-Reads put (suc n) takes fits =
      kind-Reads (uint32_kind w) put (put 0) (suc n) takes fits

  pub double_field-Reads :
      (put : ℕ → M) (v : ℕ)
      → ((r : Reader) → d.cases tag (put 0) r ≡ some (read_into put (w.read_double r)))
      → IsPlain v
      → Reads w d.cases (double_field w tag v) (put 0) (put v)
  double_field-Reads put v takes (fits, plain) = elim (Bool-cases (v == 0)) [
    | inl zeroed ↦
        let same : v ≡ 0 = ground (arith, zeroed) in
        subst (λ n. Reads w d.cases (double_field w tag n) (put 0) (put n)) (sym same)
          (nothing-Reads w d.cases (put 0))
    | inr other ↦
        let no_minus : (v == minus_zero) ≡ false = ground (arith, plain) in
        rw (other, no_minus) (kind-Reads (double_kind w) put (put 0) v takes fits)
  ]

  pub bool_field-Reads :
      (put : Bool → M) (b : Bool)
      → ((r : Reader) → d.cases tag (put false) r ≡ some (read_into put (w.read_bool r)))
      → Reads w d.cases (bool_field w tag b) (put false) (put b)
  bool_field-Reads put false takes = nothing-Reads w d.cases (put false)
  bool_field-Reads put true takes = kind-Reads (bool_kind w) put (put false) true takes tt
