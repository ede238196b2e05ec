-- ===== src/Wire/Events/Gap.antt =====
-- `Gap` of apps/console-api/src/gen/hue/v1/event_service.ts in binary.
use sharpn.Prelude.{ℕ, ◌+◌, ◌<◌, refl, List, [], ◌∷◌, ◌++◌}
use sharpn.Prelude.Int.{ℤ, pos}
use sharpn.Wire.{
  Bytes, Reader, limit, IsInt32, Wire, Outcome, one_of, read_into, int32_field, uint32_field,
}
use sharpn.Wire.Pieces.{Reads, ◌▹◌}
use sharpn.Wire.Kinds.{
  int32_kind, one_of-IsLawful, kind-Ends, Decoder, int32_field-Reads, uint32_field-Reads,
  uint32_kind,
}
use sharpn.Wire.Message.{Message}

pub record Gap : Type 0 where
  pub cause : ℤ
  pub missed : ℕ

abbrev pub base : Gap
base = record { cause = pos 0; missed = 0 }

-- What fits in the message.
pub record IsSendable (w : Wire) (m : Gap) : Type 0 where
  pub cause : IsInt32 m.cause
  pub missed : m.missed < limit

module _ (w : Wire) where
  abbrev pub encode : Gap → Bytes
  encode m = int32_field w 8 m.cause ++ uint32_field w 16 m.missed

  abbrev pub rows : ℕ → List (ℕ × (Gap → Reader → Outcome Gap))
  rows depth =
      (8, λ m r. read_into (λ v. record m { cause = v }) (w.read_int32 r))
      ∷ (16, λ m r. read_into (λ v. record m { missed = v }) (w.read_uint32 r))
      ∷ []

  abbrev pub decoder : ℕ → Decoder Gap
  decoder depth = record {
    base = base;
    cases = one_of (rows depth);
    lawful =
        one_of-IsLawful (rows depth)
          ((λ m. kind-Ends (int32_kind w) _), ((λ m. kind-Ends (uint32_kind w) _), tt));
  }

  pub encode-Reads :
      (m : Gap)
      → IsSendable w m
      → (depth : ℕ) → 0 + depth < 100
      → Reads w (one_of (rows depth)) (encode m) base m
  encode-Reads m fits depth fine =
      let m1 : Gap = record base { cause = m.cause } in
      int32_field-Reads w (decoder depth) 8 refl (λ v. record base { cause = v }) m.cause
        (λ r. refl) fits.cause
      ▹ uint32_field-Reads w (decoder depth) 16 refl (λ v. record m1 { missed = v }) m.missed
          (λ r. refl) fits.missed

  abbrev pub message : Message w Gap
  message = record {
    encode = encode;
    decoder = decoder;
    IsSendable = IsSendable w;
    height = 0;
    reads = encode-Reads;
  }
