-- ===== src/Wire/Lighting/LightGetPowerup.antt =====
-- `LightGet_Powerup` of apps/console-api/src/gen/hue/v1/lighting.ts in binary.
use sharpn.Prelude.{ℕ, ◌+◌, ◌<◌, refl, Bool, Option, none, some, List, [], ◌∷◌, ◌++◌, arith}
use sharpn.Prelude.Int.{ℤ}
use sharpn.Wire.{Bytes, Reader, IsInt32, Wire, Outcome, one_of, read_into, optional_field}
use sharpn.Wire.Pieces.{Reads, ◌▹◌}
use sharpn.Wire.Kinds.{
  int32_kind, bool_kind, IfSome, any_bool, one_of-IsLawful, kind-Ends, Decoder, optional-Reads,
}
use sharpn.Wire.Message.{Message, FitsWithin, within, within-Ends, write_within, maybe_within-Reads}
use sharpn.Wire.Lighting.LightGetPowerupOn.{LightGetPowerupOn}
use sharpn.Wire.Lighting.LightGetPowerupOn
use sharpn.Wire.Lighting.LightGetPowerupDimming.{LightGetPowerupDimming}
use sharpn.Wire.Lighting.LightGetPowerupDimming

pub record LightGetPowerup : Type 0 where
  pub preset : Option ℤ
  pub configured : Option Bool
  pub on : Option LightGetPowerupOn
  pub dimming : Option LightGetPowerupDimming

abbrev pub base : LightGetPowerup
base = record { preset = none; configured = none; on = none; dimming = none }

-- What fits in the message.
pub record IsSendable (w : Wire) (m : LightGetPowerup) : Type 0 where
  pub preset : IfSome IsInt32 m.preset
  pub on : IfSome (FitsWithin (LightGetPowerupOn.message w)) m.on
  pub dimming : IfSome (FitsWithin (LightGetPowerupDimming.message w)) m.dimming

module _ (w : Wire) where
  abbrev pub encode : LightGetPowerup → Bytes
  encode m =
      optional_field w 8 w.int32 m.preset
      ++ optional_field w 16 w.bool m.configured
      ++ optional_field w 26 (write_within (LightGetPowerupOn.message w)) m.on
      ++ optional_field w 34 (write_within (LightGetPowerupDimming.message w)) m.dimming

  abbrev pub rows : ℕ → List (ℕ × (LightGetPowerup → Reader → Outcome LightGetPowerup))
  rows depth =
      (8, λ m r. read_into (λ v. record m { preset = some v }) (w.read_int32 r))
      ∷ (16, λ m r. read_into (λ v. record m { configured = some v }) (w.read_bool r))
      ∷ (26, λ m. within (LightGetPowerupOn.message w) depth (λ v. record m { on = some v }))
      ∷ (
        34,
        λ m. within (LightGetPowerupDimming.message w) depth (λ v. record m { dimming = some v }),
      )
      ∷ []

  abbrev pub decoder : ℕ → Decoder LightGetPowerup
  decoder depth = record {
    base = base;
    cases = one_of (rows depth);
    lawful = one_of-IsLawful (rows depth) (
      (λ m. kind-Ends (int32_kind w) _),
      (
        (λ m. kind-Ends (bool_kind w) _),
        (
          (λ m. within-Ends (LightGetPowerupOn.message w) depth _),
          ((λ m. within-Ends (LightGetPowerupDimming.message w) depth _), tt),
        ),
      ),
    );
  }

  pub encode-Reads :
      (m : LightGetPowerup)
      → IsSendable w m
      → (depth : ℕ) → 5 + depth < 100
      → Reads w (one_of (rows depth)) (encode m) base m
  encode-Reads m fits depth fine =
      let m1 : LightGetPowerup = record base { preset = m.preset } in
      let m2 : LightGetPowerup = record m1 { configured = m.configured } in
      let m3 : LightGetPowerup = record m2 { on = m.on } in
      optional-Reads w (decoder depth) 8 refl (int32_kind w) (λ v. record base { preset = v })
        m.preset (λ r. refl) fits.preset
      ▹ optional-Reads w (decoder depth) 16 refl (bool_kind w) (λ v. record m1 { configured = v })
          m.configured (λ r. refl) (any_bool m.configured)
      ▹ maybe_within-Reads (LightGetPowerupOn.message w) (decoder depth) 26 refl depth
          (omega (arith, fine)) (λ v. record m2 { on = v }) m.on (λ r. refl) fits.on
      ▹ maybe_within-Reads (LightGetPowerupDimming.message w) (decoder depth) 34 refl depth
          (omega (arith, fine)) (λ v. record m3 { dimming = v }) m.dimming (λ r. refl) fits.dimming

  abbrev pub message : Message w LightGetPowerup
  message = record {
    encode = encode;
    decoder = decoder;
    IsSendable = IsSendable w;
    height = 5;
    reads = encode-Reads;
  }
