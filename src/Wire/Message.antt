-- ===== src/Wire/Message.antt =====
-- A message of apps/console-api/src/gen: how it is written and read, and that it is read as it was
-- written.
use sharpn.Prelude.{
  ℕ, suc, ◌+◌, ◌<◌, ◌≡◌, true, Option, none, some, List, [], ◌∷◌, ◌++◌, arith, ltb, ltb→lt, length,
  All,
}
use sharpn.Wire.{
  Bytes, Reader, reader, limit, Wire, Outcome, ok, nested, decode_with, delimited, each,
  optional_field,
}
use sharpn.Wire.Reading.{Ends, decode-Ends}
use sharpn.Wire.Pieces.{Reads, nothing-Reads, fields-decoded}
use sharpn.Wire.Fields.{nested-Ends}
use sharpn.Wire.Nested.{IsDecoded, nested-Reads, each-Reads}
use sharpn.Wire.Kinds.{Decoder, IfSome}

-- Messages are within it for `height` levels.
pub record Message (w : Wire) (M : Type 0) : Type 1 where
  pub encode : M → Bytes
  pub decoder : ℕ → Decoder M
  pub IsSendable : M → Type 0
  pub height : ℕ
  pub reads :
      (m : M)
      → IsSendable m
      → (depth : ℕ) → height + depth < 100
      → Reads w (Decoder.cases (decoder depth)) (encode m) (Decoder.base (decoder depth)) m

module _ {w : Wire} {M : Type 0} (k : Message w M) where
  -- Its `decode`, at a depth.
  abbrev pub decode_as : ℕ → ℕ → Reader → Outcome M
  decode_as depth =
      decode_with w (Decoder.cases (k.decoder depth)) (Decoder.base (k.decoder depth)) depth

  pub decode_as-Ends : (depth len : ℕ) (r : Reader) → Ends (length r.rest) (decode_as depth len r)
  decode_as-Ends depth len r =
      let d = k.decoder depth in decode-Ends w d.cases d.lawful d.base depth len r

  pub decode_as-encode :
      (m : M)
      → k.IsSendable m
      → (depth at : ℕ) (rest : Bytes) → k.height + depth < 100
      → decode_as depth (length (k.encode m)) (reader at (k.encode m ++ rest))
        ≡ ok m (reader (at + length (k.encode m)) rest)
  decode_as-encode m fits depth at rest fine =
      let d = k.decoder depth in
      fields-decoded w d.cases d.base m (k.encode m) depth at rest (omega (arith, fine))
        (k.reads m fits depth fine)

  -- What fits within another message.
  abbrev pub FitsWithin : M → Type 0
  FitsWithin m = k.IsSendable m × (length (k.encode m) < limit)

  pub encode-IsDecoded :
      (depth : ℕ)
      → k.height + depth < 100
      → (m : M) → FitsWithin m
      → IsDecoded (k.encode m) (decode_as depth) m
  encode-IsDecoded depth fine m (fits, short) = record {
    short = short;
    decoded = λ at rest. decode_as-encode m fits depth at rest fine;
  }

  -- `M.decode(reader, reader.uint32())`, and what is done with the message.
  abbrev pub within : {N : Type 0} → ℕ → (M → N) → Reader → Outcome N
  within depth put r = nested w (decode_as (suc depth)) put (w.read_uint32 r)

  pub within-Ends :
      {N : Type 0} (depth : ℕ) (put : M → N) (r : Reader)
      → Ends (length r.rest) (within depth put r)
  within-Ends depth put r = nested-Ends w (decode_as (suc depth)) put r (decode_as-Ends (suc depth))

  abbrev pub write_within : M → Bytes
  write_within m = delimited w (k.encode m)

  module _ {N : Type 0} (d : Decoder N) (tag : ℕ) (small : ltb tag limit ≡ true) (depth : ℕ)
      (fine : k.height + suc depth < 100) where
    pub within-Reads :
        (put : M → N) (n : N) (m : M)
        → ((r : Reader) → d.cases tag n r ≡ some (within depth put r))
        → FitsWithin m
        → Reads w d.cases (w.uint32 tag ++ write_within m) n (put m)
    within-Reads put n m takes fits =
        nested-Reads w d.cases d.lawful tag (decode_as (suc depth)) put n (k.encode m) m
          (ltb→lt tag limit small) takes (encode-IsDecoded (suc depth) fine m fits)

    pub maybe_within-Reads :
        (put : Option M → N) (o : Option M)
        → ((r : Reader) → d.cases tag (put none) r ≡ some (within depth (λ v. put (some v)) r))
        → IfSome FitsWithin o
        → Reads w d.cases (optional_field w tag write_within o) (put none) (put o)
    maybe_within-Reads put none takes fits = nothing-Reads w d.cases (put none)
    maybe_within-Reads put (some m) takes fits =
        within-Reads (λ v. put (some v)) (put none) m takes fits

    pub list_within-Reads :
        (put : List M → N) (ms : List M)
        → ((ms : List M) (r : Reader)
            → d.cases tag (put ms) r ≡ some (within depth (λ v. put (ms ++ v ∷ [])) r))
        → All FitsWithin ms
        → Reads w d.cases (each (λ m. w.uint32 tag ++ write_within m) ms) (put []) (put ms)
    list_within-Reads put ms takes fits =
        each-Reads w d.cases (λ m. w.uint32 tag ++ write_within m) FitsWithin put [] ms
          (λ seen m fit. within-Reads (λ v. put (seen ++ v ∷ [])) (put seen) m (takes seen) fit)
          fits
