-- ===== src/Wire/Common/ColorTemperatureDelta.antt =====
-- `ColorTemperatureDelta` of apps/console-api/src/gen/hue/v1/common.ts in binary.
use sharpn.Prelude.{ℕ, ◌+◌, ◌<◌, refl, Option, none, some, List, [], ◌∷◌, ◌++◌}
use sharpn.Prelude.Int.{ℤ}
use sharpn.Wire.{Bytes, Reader, IsInt32, Wire, Outcome, one_of, read_into, optional_field}
use sharpn.Wire.Pieces.{Reads, ◌▹◌}
use sharpn.Wire.Kinds.{int32_kind, IfSome, one_of-IsLawful, kind-Ends, Decoder, optional-Reads}
use sharpn.Wire.Message.{Message}

pub record ColorTemperatureDelta : Type 0 where
  pub action : Option ℤ
  pub mirek_delta : Option ℤ

abbrev pub base : ColorTemperatureDelta
base = record { action = none; mirek_delta = none }

-- What fits in the message.
pub record IsSendable (w : Wire) (m : ColorTemperatureDelta) : Type 0 where
  pub action : IfSome IsInt32 m.action
  pub mirek_delta : IfSome IsInt32 m.mirek_delta

module _ (w : Wire) where
  abbrev pub encode : ColorTemperatureDelta → Bytes
  encode m = optional_field w 8 w.int32 m.action ++ optional_field w 16 w.int32 m.mirek_delta

  abbrev pub rows : ℕ → List (ℕ × (ColorTemperatureDelta → Reader → Outcome ColorTemperatureDelta))
  rows depth =
      (8, λ m r. read_into (λ v. record m { action = some v }) (w.read_int32 r))
      ∷ (16, λ m r. read_into (λ v. record m { mirek_delta = some v }) (w.read_int32 r))
      ∷ []

  abbrev pub decoder : ℕ → Decoder ColorTemperatureDelta
  decoder depth = record {
    base = base;
    cases = one_of (rows depth);
    lawful =
        one_of-IsLawful (rows depth)
          ((λ m. kind-Ends (int32_kind w) _), ((λ m. kind-Ends (int32_kind w) _), tt));
  }

  pub encode-Reads :
      (m : ColorTemperatureDelta)
      → IsSendable w m
      → (depth : ℕ) → 0 + depth < 100
      → Reads w (one_of (rows depth)) (encode m) base m
  encode-Reads m fits depth fine =
      let m1 : ColorTemperatureDelta = record base { action = m.action } in
      optional-Reads w (decoder depth) 8 refl (int32_kind w) (λ v. record base { action = v })
        m.action (λ r. refl) fits.action
      ▹ optional-Reads w (decoder depth) 16 refl (int32_kind w) (λ v. record m1 { mirek_delta = v })
          m.mirek_delta (λ r. refl) fits.mirek_delta

  abbrev pub message : Message w ColorTemperatureDelta
  message = record {
    encode = encode;
    decoder = decoder;
    IsSendable = IsSendable w;
    height = 0;
    reads = encode-Reads;
  }
