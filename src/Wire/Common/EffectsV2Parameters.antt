-- ===== src/Wire/Common/EffectsV2Parameters.antt =====
-- `EffectsV2Parameters` of apps/console-api/src/gen/hue/v1/common.ts in binary.
use sharpn.Prelude.{ℕ, ◌+◌, ◌<◌, refl, Option, none, some, List, [], ◌∷◌, ◌++◌, arith}
use sharpn.Wire.{Bytes, Reader, IsDouble, Wire, Outcome, one_of, read_into, optional_field}
use sharpn.Wire.Pieces.{Reads, ◌▹◌}
use sharpn.Wire.Kinds.{double_kind, IfSome, one_of-IsLawful, kind-Ends, Decoder, optional-Reads}
use sharpn.Wire.Message.{Message, FitsWithin, within, within-Ends, write_within, maybe_within-Reads}
use sharpn.Wire.Common.Color.{Color}
use sharpn.Wire.Common.Color
use sharpn.Wire.Common.EffectsV2ParametersColorTemperature.{EffectsV2ParametersColorTemperature}
use sharpn.Wire.Common.EffectsV2ParametersColorTemperature

pub record EffectsV2Parameters : Type 0 where
  pub color : Option Color
  pub color_temperature : Option EffectsV2ParametersColorTemperature
  pub speed : Option ℕ

abbrev pub base : EffectsV2Parameters
base = record { color = none; color_temperature = none; speed = none }

-- What fits in the message.
pub record IsSendable (w : Wire) (m : EffectsV2Parameters) : Type 0 where
  pub color : IfSome (FitsWithin (Color.message w)) m.color
  pub color_temperature :
      IfSome (FitsWithin (EffectsV2ParametersColorTemperature.message w)) m.color_temperature
  pub speed : IfSome IsDouble m.speed

module _ (w : Wire) where
  abbrev pub encode : EffectsV2Parameters → Bytes
  encode m =
      optional_field w 10 (write_within (Color.message w)) m.color
      ++ optional_field w 18 (write_within (EffectsV2ParametersColorTemperature.message w))
          m.color_temperature
      ++ optional_field w 25 w.double m.speed

  abbrev pub rows : ℕ → List (ℕ × (EffectsV2Parameters → Reader → Outcome EffectsV2Parameters))
  rows depth =
      (10, λ m. within (Color.message w) depth (λ v. record m { color = some v }))
      ∷ (
        18,
        λ m.
            within (EffectsV2ParametersColorTemperature.message w) depth
              (λ v. record m { color_temperature = some v }),
      )
      ∷ (25, λ m r. read_into (λ v. record m { speed = some v }) (w.read_double r))
      ∷ []

  abbrev pub decoder : ℕ → Decoder EffectsV2Parameters
  decoder depth = record {
    base = base;
    cases = one_of (rows depth);
    lawful = one_of-IsLawful (rows depth) (
      (λ m. within-Ends (Color.message w) depth _),
      (
        (λ m. within-Ends (EffectsV2ParametersColorTemperature.message w) depth _),
        ((λ m. kind-Ends (double_kind w) _), tt),
      ),
    );
  }

  pub encode-Reads :
      (m : EffectsV2Parameters)
      → IsSendable w m
      → (depth : ℕ) → 2 + depth < 100
      → Reads w (one_of (rows depth)) (encode m) base m
  encode-Reads m fits depth fine =
      let m1 : EffectsV2Parameters = record base { color = m.color } in
      let m2 : EffectsV2Parameters = record m1 { color_temperature = m.color_temperature } in
      maybe_within-Reads (Color.message w) (decoder depth) 10 refl depth (omega (arith, fine))
        (λ v. record base { color = v }) m.color (λ r. refl) fits.color
      ▹ maybe_within-Reads (EffectsV2ParametersColorTemperature.message w) (decoder depth) 18 refl
          depth (omega (arith, fine)) (λ v. record m1 { color_temperature = v }) m.color_temperature
          (λ r. refl) fits.color_temperature
      ▹ optional-Reads w (decoder depth) 25 refl (double_kind w) (λ v. record m2 { speed = v })
          m.speed (λ r. refl) fits.speed

  abbrev pub message : Message w EffectsV2Parameters
  message = record {
    encode = encode;
    decoder = decoder;
    IsSendable = IsSendable w;
    height = 2;
    reads = encode-Reads;
  }
