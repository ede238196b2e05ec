-- ===== src/Wire/Common/ColorTemperature.antt =====
-- `ColorTemperature` of apps/console-api/src/gen/hue/v1/common.ts in binary.
use sharpn.Prelude.{ℕ, ◌+◌, ◌<◌, refl, Option, none, some, List, [], ◌∷◌}
use sharpn.Prelude.Int.{ℤ}
use sharpn.Wire.{Bytes, Reader, IsInt32, Wire, Outcome, one_of, read_into, optional_field}
use sharpn.Wire.Pieces.{Reads}
use sharpn.Wire.Kinds.{int32_kind, IfSome, one_of-IsLawful, kind-Ends, Decoder, optional-Reads}
use sharpn.Wire.Message.{Message}

pub record ColorTemperature : Type 0 where
  pub mirek : Option ℤ

abbrev pub base : ColorTemperature
base = record { mirek = none }

-- What fits in the message.
pub record IsSendable (w : Wire) (m : ColorTemperature) : Type 0 where
  pub mirek : IfSome IsInt32 m.mirek

module _ (w : Wire) where
  abbrev pub encode : ColorTemperature → Bytes
  encode m = optional_field w 8 w.int32 m.mirek

  abbrev pub rows : ℕ → List (ℕ × (ColorTemperature → Reader → Outcome ColorTemperature))
  rows depth = (8, λ m r. read_into (λ v. record m { mirek = some v }) (w.read_int32 r)) ∷ []

  abbrev pub decoder : ℕ → Decoder ColorTemperature
  decoder depth = record {
    base = base;
    cases = one_of (rows depth);
    lawful = one_of-IsLawful (rows depth) ((λ m. kind-Ends (int32_kind w) _), tt);
  }

  pub encode-Reads :
      (m : ColorTemperature)
      → IsSendable w m
      → (depth : ℕ) → 0 + depth < 100
      → Reads w (one_of (rows depth)) (encode m) base m
  encode-Reads m fits depth fine =
      optional-Reads w (decoder depth) 8 refl (int32_kind w) (λ v. record base { mirek = v })
        m.mirek (λ r. refl) fits.mirek

  abbrev pub message : Message w ColorTemperature
  message = record {
    encode = encode;
    decoder = decoder;
    IsSendable = IsSendable w;
    height = 0;
    reads = encode-Reads;
  }
