-- ===== src/Wire/Lighting/LightGetPowerupDimmingColorColorTemperature.antt =====
-- `LightGet_Powerup_Dimming_Color_ColorTemperature` of apps/console-api/src/gen/hue/v1/lighting.ts in binary.
use sharpn.Prelude.{ℕ, ◌+◌, ◌<◌, refl, Option, none, some, List, [], ◌∷◌, ◌++◌, arith}
use sharpn.Prelude.Int.{ℤ}
use sharpn.Wire.{Bytes, Reader, IsInt32, Wire, Outcome, one_of, read_into, optional_field}
use sharpn.Wire.Pieces.{Reads, ◌▹◌}
use sharpn.Wire.Kinds.{int32_kind, IfSome, one_of-IsLawful, kind-Ends, Decoder, optional-Reads}
use sharpn.Wire.Message.{Message, FitsWithin, within, within-Ends, write_within, maybe_within-Reads}
use sharpn.Wire.Common.Color.{Color}
use sharpn.Wire.Common.Color

pub record LightGetPowerupDimmingColorColorTemperature : Type 0 where
  pub mirek : Option ℤ
  pub color : Option Color

abbrev pub base : LightGetPowerupDimmingColorColorTemperature
base = record { mirek = none; color = none }

-- What fits in the message.
pub record IsSendable (w : Wire) (m : LightGetPowerupDimmingColorColorTemperature) : Type 0 where
  pub mirek : IfSome IsInt32 m.mirek
  pub color : IfSome (FitsWithin (Color.message w)) m.color

module _ (w : Wire) where
  abbrev pub encode : LightGetPowerupDimmingColorColorTemperature → Bytes
  encode m =
      optional_field w 8 w.int32 m.mirek
      ++ optional_field w 18 (write_within (Color.message w)) m.color

  abbrev pub rows :
      ℕ
      → List (
          ℕ
          × (LightGetPowerupDimmingColorColorTemperature
              → Reader
              → Outcome LightGetPowerupDimmingColorColorTemperature))
  rows depth =
      (8, λ m r. read_into (λ v. record m { mirek = some v }) (w.read_int32 r))
      ∷ (18, λ m. within (Color.message w) depth (λ v. record m { color = some v }))
      ∷ []

  abbrev pub decoder : ℕ → Decoder LightGetPowerupDimmingColorColorTemperature
  decoder depth = record {
    base = base;
    cases = one_of (rows depth);
    lawful =
        one_of-IsLawful (rows depth)
          ((λ m. kind-Ends (int32_kind w) _), ((λ m. within-Ends (Color.message w) depth _), tt));
  }

  pub encode-Reads :
      (m : LightGetPowerupDimmingColorColorTemperature)
      → IsSendable w m
      → (depth : ℕ) → 2 + depth < 100
      → Reads w (one_of (rows depth)) (encode m) base m
  encode-Reads m fits depth fine =
      let m1 : LightGetPowerupDimmingColorColorTemperature = record base { mirek = m.mirek } in
      optional-Reads w (decoder depth) 8 refl (int32_kind w) (λ v. record base { mirek = v })
        m.mirek (λ r. refl) fits.mirek
      ▹ maybe_within-Reads (Color.message w) (decoder depth) 18 refl depth (omega (arith, fine))
          (λ v. record m1 { color = v }) m.color (λ r. refl) fits.color

  abbrev pub message : Message w LightGetPowerupDimmingColorColorTemperature
  message = record {
    encode = encode;
    decoder = decoder;
    IsSendable = IsSendable w;
    height = 2;
    reads = encode-Reads;
  }
