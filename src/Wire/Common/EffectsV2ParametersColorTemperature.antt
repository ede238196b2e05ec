-- ===== src/Wire/Common/EffectsV2ParametersColorTemperature.antt =====
-- `EffectsV2Parameters_ColorTemperature` of apps/console-api/src/gen/hue/v1/common.ts in binary.
use sharpn.Prelude.{ℕ, ◌+◌, ◌<◌, refl, Bool, Option, none, some, List, [], ◌∷◌, ◌++◌}
use sharpn.Prelude.Int.{ℤ}
use sharpn.Wire.{Bytes, Reader, IsInt32, Wire, Outcome, one_of, read_into, optional_field}
use sharpn.Wire.Pieces.{Reads, ◌▹◌}
use sharpn.Wire.Kinds.{
  int32_kind, bool_kind, IfSome, any_bool, one_of-IsLawful, kind-Ends, Decoder, optional-Reads,
}
use sharpn.Wire.Message.{Message}

pub record EffectsV2ParametersColorTemperature : Type 0 where
  pub mirek : Option ℤ
  pub mirek_valid : Option Bool

abbrev pub base : EffectsV2ParametersColorTemperature
base = record { mirek = none; mirek_valid = none }

-- What fits in the message.
pub record IsSendable (w : Wire) (m : EffectsV2ParametersColorTemperature) : Type 0 where
  pub mirek : IfSome IsInt32 m.mirek

module _ (w : Wire) where
  abbrev pub encode : EffectsV2ParametersColorTemperature → Bytes
  encode m = optional_field w 8 w.int32 m.mirek ++ optional_field w 16 w.bool m.mirek_valid

  abbrev pub rows :
      ℕ
      → List (
          ℕ
          × (EffectsV2ParametersColorTemperature
              → Reader
              → Outcome EffectsV2ParametersColorTemperature))
  rows depth =
      (8, λ m r. read_into (λ v. record m { mirek = some v }) (w.read_int32 r))
      ∷ (16, λ m r. read_into (λ v. record m { mirek_valid = some v }) (w.read_bool r))
      ∷ []

  abbrev pub decoder : ℕ → Decoder EffectsV2ParametersColorTemperature
  decoder depth = record {
    base = base;
    cases = one_of (rows depth);
    lawful =
        one_of-IsLawful (rows depth)
          ((λ m. kind-Ends (int32_kind w) _), ((λ m. kind-Ends (bool_kind w) _), tt));
  }

  pub encode-Reads :
      (m : EffectsV2ParametersColorTemperature)
      → IsSendable w m
      → (depth : ℕ) → 0 + depth < 100
      → Reads w (one_of (rows depth)) (encode m) base m
  encode-Reads m fits depth fine =
      let m1 : EffectsV2ParametersColorTemperature = record base { mirek = m.mirek } in
      optional-Reads w (decoder depth) 8 refl (int32_kind w) (λ v. record base { mirek = v })
        m.mirek (λ r. refl) fits.mirek
      ▹ optional-Reads w (decoder depth) 16 refl (bool_kind w) (λ v. record m1 { mirek_valid = v })
          m.mirek_valid (λ r. refl) (any_bool m.mirek_valid)

  abbrev pub message : Message w EffectsV2ParametersColorTemperature
  message = record {
    encode = encode;
    decoder = decoder;
    IsSendable = IsSendable w;
    height = 0;
    reads = encode-Reads;
  }
