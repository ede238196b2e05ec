-- ===== src/Wire/Lighting/LightGetPowerupDimmingColor.antt =====
-- `LightGet_Powerup_Dimming_Color` of apps/console-api/src/gen/hue/v1/lighting.ts in binary.
use sharpn.Prelude.{ℕ, ◌+◌, ◌<◌, refl, Option, none, some, List, [], ◌∷◌, ◌++◌, arith}
use sharpn.Prelude.Int.{ℤ}
use sharpn.Wire.{Bytes, Reader, IsInt32, Wire, Outcome, one_of, read_into, optional_field}
use sharpn.Wire.Pieces.{Reads, ◌▹◌}
use sharpn.Wire.Kinds.{int32_kind, IfSome, one_of-IsLawful, kind-Ends, Decoder, optional-Reads}
use sharpn.Wire.Message.{Message, FitsWithin, within, within-Ends, write_within, maybe_within-Reads}
use sharpn.Wire.Lighting.LightGetPowerupDimmingColorColorTemperature.{
  LightGetPowerupDimmingColorColorTemperature,
}
use sharpn.Wire.Lighting.LightGetPowerupDimmingColorColorTemperature

pub record LightGetPowerupDimmingColor : Type 0 where
  pub mode : Option ℤ
  pub color_temperature : Option LightGetPowerupDimmingColorColorTemperature

abbrev pub base : LightGetPowerupDimmingColor
base = record { mode = none; color_temperature = none }

-- What fits in the message.
pub record IsSendable (w : Wire) (m : LightGetPowerupDimmingColor) : Type 0 where
  pub mode : IfSome IsInt32 m.mode
  pub color_temperature :
      IfSome
        (FitsWithin (LightGetPowerupDimmingColorColorTemperature.message w))
        m.color_temperature

module _ (w : Wire) where
  abbrev pub encode : LightGetPowerupDimmingColor → Bytes
  encode m =
      optional_field w 8 w.int32 m.mode
      ++ optional_field w 18 (write_within (LightGetPowerupDimmingColorColorTemperature.message w))
          m.color_temperature

  abbrev pub rows :
      ℕ → List (ℕ × (LightGetPowerupDimmingColor → Reader → Outcome LightGetPowerupDimmingColor))
  rows depth =
      (8, λ m r. read_into (λ v. record m { mode = some v }) (w.read_int32 r))
      ∷ (
        18,
        λ m.
            within (LightGetPowerupDimmingColorColorTemperature.message w) depth
              (λ v. record m { color_temperature = some v }),
      )
      ∷ []

  abbrev pub decoder : ℕ → Decoder LightGetPowerupDimmingColor
  decoder depth = record {
    base = base;
    cases = one_of (rows depth);
    lawful = one_of-IsLawful (rows depth) (
      (λ m. kind-Ends (int32_kind w) _),
      ((λ m. within-Ends (LightGetPowerupDimmingColorColorTemperature.message w) depth _), tt),
    );
  }

  pub encode-Reads :
      (m : LightGetPowerupDimmingColor)
      → IsSendable w m
      → (depth : ℕ) → 3 + depth < 100
      → Reads w (one_of (rows depth)) (encode m) base m
  encode-Reads m fits depth fine =
      let m1 : LightGetPowerupDimmingColor = record base { mode = m.mode } in
      optional-Reads w (decoder depth) 8 refl (int32_kind w) (λ v. record base { mode = v }) m.mode
        (λ r. refl) fits.mode
      ▹ maybe_within-Reads (LightGetPowerupDimmingColorColorTemperature.message w) (decoder depth)
          18 refl depth (omega (arith, fine)) (λ v. record m1 { color_temperature = v })
          m.color_temperature (λ r. refl) fits.color_temperature

  abbrev pub message : Message w LightGetPowerupDimmingColor
  message = record {
    encode = encode;
    decoder = decoder;
    IsSendable = IsSendable w;
    height = 3;
    reads = encode-Reads;
  }
