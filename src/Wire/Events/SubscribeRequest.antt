-- ===== src/Wire/Events/SubscribeRequest.antt =====
-- `SubscribeRequest` of apps/console-api/src/gen/hue/v1/event_service.ts in binary.
use sharpn.Prelude.{ℕ, ◌+◌, ◌<◌, refl, List, [], ◌∷◌, ◌++◌, length, All}
use sharpn.Prelude.Int.{ℤ}
use sharpn.Prelude.Decimal.{Text}
use sharpn.Wire.{
  Bytes, Reader, limit, IsInt32, Wire, Outcome, one_of, read_into, unpack, delimited, each,
}
use sharpn.Wire.Pieces.{Reads, ◌▹◌}
use sharpn.Wire.Fields.{IsWritten}
use sharpn.Wire.Packed.{unpack-Ends}
use sharpn.Wire.Kinds.{
  string_kind, int32_kind, one_of-IsLawful, kind-Ends, Decoder, repeated-Reads, types-Reads,
}
use sharpn.Wire.Message.{Message}

pub record SubscribeRequest : Type 0 where
  pub resource_ids : List Text
  pub resource_types : List ℤ

abbrev pub base : SubscribeRequest
base = record { resource_ids = []; resource_types = [] }

-- What fits in the message.
pub record IsSendable (w : Wire) (m : SubscribeRequest) : Type 0 where
  pub resource_ids : All (IsWritten w) m.resource_ids
  pub resource_types :
      All IsInt32 m.resource_types × (length (each w.int32 m.resource_types) < limit)

module _ (w : Wire) where
  abbrev pub encode : SubscribeRequest → Bytes
  encode m =
      each (λ v. w.uint32 10 ++ w.string v) m.resource_ids
      ++ (w.uint32 18 ++ delimited w (each w.int32 m.resource_types))

  abbrev pub rows : ℕ → List (ℕ × (SubscribeRequest → Reader → Outcome SubscribeRequest))
  rows depth =
      (
        10,
        λ m r.
            read_into (λ v. record m { resource_ids = m.resource_ids ++ v ∷ [] }) (w.read_string r),
      )
      ∷ (
        16,
        λ m r.
            read_into (λ v. record m { resource_types = m.resource_types ++ v ∷ [] })
              (w.read_int32 r),
      )
      ∷ (
        18,
        λ m r. unpack w m.resource_types (λ vs. record m { resource_types = vs }) (w.read_uint32 r),
      )
      ∷ []

  abbrev pub decoder : ℕ → Decoder SubscribeRequest
  decoder depth = record {
    base = base;
    cases = one_of (rows depth);
    lawful = one_of-IsLawful (rows depth) (
      (λ m. kind-Ends (string_kind w) _),
      ((λ m. kind-Ends (int32_kind w) _), ((λ m. unpack-Ends w m.resource_types _), tt)),
    );
  }

  pub encode-Reads :
      (m : SubscribeRequest)
      → IsSendable w m
      → (depth : ℕ) → 0 + depth < 100
      → Reads w (one_of (rows depth)) (encode m) base m
  encode-Reads m fits depth fine =
      let m1 : SubscribeRequest = record base { resource_ids = m.resource_ids } in
      repeated-Reads w (decoder depth) 10 refl (string_kind w)
        (λ v. record base { resource_ids = v }) m.resource_ids (λ vs r. refl) fits.resource_ids
      ▹ types-Reads w (decoder depth) 18 refl (λ v. record m1 { resource_types = v })
          m.resource_types (λ r. refl) fits.resource_types

  abbrev pub message : Message w SubscribeRequest
  message = record {
    encode = encode;
    decoder = decoder;
    IsSendable = IsSendable w;
    height = 0;
    reads = encode-Reads;
  }
