-- ===== src/Wire.antt =====
-- The binary form of a message, as apps/console-api/src/gen writes and reads it: the loop that every
-- `decode` there has, and the pieces that its `encode` is put together of. The reader and the writer are
-- @bufbuild/protobuf's: a record of what they do, with the laws that they are relied on for.
pub mod Common
pub mod Events
pub mod Exchanged
pub mod Fields
pub mod Kinds
pub mod Lighting
pub mod Message
pub mod Nested
pub mod Service
pub mod Packed
pub mod Pieces
pub mod Reading
use sharpn.Prelude.{
  ℕ, zero, suc, ◌+◌, ◌-◌, ◌*◌, ◌/◌, ◌%◌, ◌≤◌, ◌<◌, min, max, String, ◌≡◌, refl, sym, ap, subst, ◌∙◌,
  ◌≢◌, ◌↔◌, ◌⊎◌, inl, inr, Bool, true, false, ◌&&◌, ◌||◌, not, Option, none, some, List, [], ◌∷◌,
  ◌++◌, map, arith, ltb, leb, ◌==◌, str_eq, if◌then◌else◌, ltb→lt, lt→ltb, leb→le, str_eq_iff,
  str_eq_refl, Bool-cases, Option-cases, or_else, is_some, length, get_elem?, head?, length-append,
  keep, all, any, All,
}
use sharpn.Prelude.Int.{ℤ, pos, negsuc}
use sharpn.Prelude.Decimal.{Text}

abbrev pub Bytes : Type 0
Bytes = List ℕ

-- `BinaryReader`: its position, and the bytes from there on.
pub record Reader : Type 0 where
  pub at : ℕ
  pub rest : Bytes

abbrev pub reader : ℕ → Bytes → Reader
reader at rest = record { at = at; rest = rest }

-- What is less than this is an unsigned number of 32 bits.
abbrev pub limit : ℕ
limit = 4294967296

abbrev pub IsInt32 : ℤ → Type 0
IsInt32 (pos n) = n < 2147483648
IsInt32 (negsuc n) = n < 2147483648

-- A text without half of a surrogate pair.
abbrev pub IsScalar : ℕ → Type 0
IsScalar c = (c < 55296) ⊎ ((57344 ≤ c) × (c < 1114112))

-- A number that is no 32-bit integer is its 64 bits, of which NaN has one pattern; this one is -0.
abbrev pub minus_zero : ℕ
minus_zero = 9223372036854775808

abbrev pub IsDouble : ℕ → Type 0
IsDouble bits = bits < 18446744073709551616

-- Reading gives `none` where it throws.
pub record Wire : Type 0 where
  pub uint32 : ℕ → Bytes
  pub int32 : ℤ → Bytes
  pub string : Text → Bytes
  pub double : ℕ → Bytes
  pub bool : Bool → Bytes
  pub read_uint32 : Reader → Option (ℕ × Reader)
  pub read_int32 : Reader → Option (ℤ × Reader)
  pub read_string : Reader → Option (Text × Reader)
  pub read_double : Reader → Option (ℕ × Reader)
  pub read_bool : Reader → Option (Bool × Reader)
  pub skip : ℕ → Reader → Option Reader
  pub read-uint32 :
      (n at : ℕ) (rest : Bytes)
      → n < limit
      → read_uint32 (reader at (uint32 n ++ rest)) ≡ some (n, reader (at + length (uint32 n)) rest)
  pub read-int32 :
      (v : ℤ) (at : ℕ) (rest : Bytes)
      → IsInt32 v
      → read_int32 (reader at (int32 v ++ rest)) ≡ some (v, reader (at + length (int32 v)) rest)
  pub read-string :
      (t : Text) (at : ℕ) (rest : Bytes)
      → All IsScalar t
      → length (string t) < limit
      → read_string (reader at (string t ++ rest)) ≡ some (t, reader (at + length (string t)) rest)
  pub read-double :
      (bits at : ℕ) (rest : Bytes)
      → IsDouble bits
      → read_double (reader at (double bits ++ rest))
        ≡ some (bits, reader (at + length (double bits)) rest)
  pub read-bool :
      (b : Bool) (at : ℕ) (rest : Bytes)
      → read_bool (reader at (bool b ++ rest)) ≡ some (b, reader (at + length (bool b)) rest)
  pub uint32_takes :
      (r s : Reader) (n : ℕ) → read_uint32 r ≡ some (n, s) → length s.rest < length r.rest
  pub int32_takes :
      (r s : Reader) (v : ℤ) → read_int32 r ≡ some (v, s) → length s.rest < length r.rest
  pub string_takes :
      (r s : Reader) (t : Text) → read_string r ≡ some (t, s) → length s.rest < length r.rest
  pub double_takes :
      (r s : Reader) (bits : ℕ) → read_double r ≡ some (bits, s) → length s.rest < length r.rest
  pub bool_takes :
      (r s : Reader) (b : Bool) → read_bool r ≡ some (b, s) → length s.rest < length r.rest
  pub skip_takes : (kind : ℕ) (r s : Reader) → skip kind r ≡ some s → length s.rest ≤ length r.rest

-- What decoding comes to; `spins` is a loop whose fuel is not enough.
pub data Outcome {ℓ} (A : Type ℓ) : Type ℓ where
  ok : A → Reader → Outcome A
  throws : Outcome A
  spins : Outcome A

-- The cases of a message's `switch`: what becomes of a field with a tag, or none where no case goes on.
abbrev pub Cases : Type 0 → Type 0
Cases M = ℕ → M → Reader → Option (Outcome M)

pub data Round (M : Type 0) : Type 0 where
  goes : M → Reader → Round M
  stops : M → Reader → Round M
  fails : Round M
  runs_out : Round M

-- The cases of a `switch` as rows: the tag that a case must have, and what it does.
abbrev pub one_of : {M : Type 0} → List (ℕ × (M → Reader → Outcome M)) → Cases M
one_of [] tag m r = none
one_of (row ∷ rows) tag m r = if tag == row.0 then some (row.1 m r) else one_of rows tag m r

-- What a value that was read is put to.
abbrev pub read_into {ℓ} : {A M : Type ℓ} → (A → M) → Option (A × Reader) → Outcome M
read_into put none = throws
read_into put (some (a, r)) = ok (put a) r

abbrev pub kept_or : {M : Type 0} → M → Option Reader → Round M
kept_or m none = fails
kept_or m (some r) = goes m r

abbrev pub taken : {M : Type 0} → Outcome M → Round M
taken (ok m r) = goes m r
taken throws = fails
taken spins = runs_out

abbrev pub then_on : {M : Type 0} → Round M → (M → Reader → Outcome M) → Outcome M
then_on (goes m r) next = next m r
then_on (stops m r) next = ok m r
then_on fails next = throws
then_on runs_out next = spins

abbrev pub used : {N M : Type 0} → (N → M) → Outcome N → Outcome M
used put (ok n r) = ok (put n) r
used put throws = throws
used put spins = spins

abbrev pub packed_next :
    Option (ℤ × Reader) → List ℤ → (List ℤ → Reader → Outcome (List ℤ)) → Outcome (List ℤ)
packed_next none vs next = throws
packed_next (some (v, r)) vs next = next (vs ++ v ∷ []) r

-- What a loop over the values of a repeated field writes.
abbrev pub each {ℓ} : {A : Type ℓ} → (A → Bytes) → List A → Bytes
each write [] = []
each write (v ∷ vs) = write v ++ each write vs

module _ (w : Wire) where
  open w use {uint32, int32, string, read_uint32, skip}

  -- A field that no case takes.
  abbrev pub leave : {M : Type 0} → ℕ → M → Reader → Round M
  leave tag m r = if (tag % 8 == 4) || (tag == 0) then stops m r else kept_or m (skip (tag % 8) r)

  abbrev pub switch : {M : Type 0} → ℕ → M → Reader → Option (Outcome M) → Round M
  switch tag m r none = leave tag m r
  switch tag m r (some outcome) = taken outcome

  abbrev pub with_tag : {M : Type 0} → Cases M → M → Option (ℕ × Reader) → Round M
  with_tag cases m none = fails
  with_tag cases m (some (tag, r)) = switch tag m r (cases tag m r)

  -- One round of `while (reader.pos < end)`.
  pub round : {M : Type 0} → Cases M → M → Reader → Round M
  round cases m r = with_tag cases m (read_uint32 r)

  pub loop : {M : Type 0} → Cases M → ℕ → ℕ → M → Reader → Outcome M
  loop cases zero end m r = spins
  loop cases (suc fuel) end m r =
      if ltb r.at end then then_on (round cases m r) (loop cases fuel end) else ok m r

  -- A `decode` that is told the length of its message, at a depth of nesting.
  pub decode_with : {M : Type 0} → Cases M → M → ℕ → ℕ → Reader → Outcome M
  decode_with cases base depth len r =
      if leb 100 depth then throws else loop cases (suc (length r.rest)) (r.at + len) base r

  -- `M.decode(reader, reader.uint32())`.
  abbrev pub nested :
      {N M : Type 0} → (ℕ → Reader → Outcome N) → (N → M) → Option (ℕ × Reader) → Outcome M
  nested decode put none = throws
  nested decode put (some (len, r)) = used put (decode len r)

  -- `fork` and `join`.
  abbrev pub delimited : Bytes → Bytes
  delimited body = uint32 (length body) ++ body

  abbrev pub string_field : ℕ → Text → Bytes
  string_field tag [] = []
  string_field tag (c ∷ cs) = uint32 tag ++ string (c ∷ cs)

  abbrev pub int32_field : ℕ → ℤ → Bytes
  int32_field tag (pos zero) = []
  int32_field tag v = uint32 tag ++ int32 v

  abbrev pub uint32_field : ℕ → ℕ → Bytes
  uint32_field tag zero = []
  uint32_field tag (suc n) = uint32 tag ++ uint32 (suc n)

  -- `while (reader.pos < end2)`, of a packed field.
  pub packed : ℕ → ℕ → List ℤ → Reader → Outcome (List ℤ)
  packed zero end vs r = spins
  packed (suc fuel) end vs r =
      if ltb r.at end then packed_next (w.read_int32 r) vs (packed fuel end) else ok vs r

  -- The loop, of a field whose length was read.
  abbrev pub unpack : {M : Type 0} → List ℤ → (List ℤ → M) → Option (ℕ × Reader) → Outcome M
  unpack vs put none = throws
  unpack vs put (some (len, r)) = used put (packed (suc (length r.rest)) (len + r.at) vs r)

  abbrev pub double_field : ℕ → ℕ → Bytes
  double_field tag bits =
      if (bits == 0) || (bits == minus_zero) then [] else uint32 tag ++ w.double bits

  abbrev pub bool_field : ℕ → Bool → Bytes
  bool_field tag false = []
  bool_field tag true = uint32 tag ++ w.bool true

  -- A field that is written where it is not undefined.
  abbrev pub optional_field : {A : Type 0} → ℕ → (A → Bytes) → Option A → Bytes
  optional_field tag write none = []
  optional_field tag write (some v) = uint32 tag ++ write v
