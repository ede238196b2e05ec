-- ===== src/Wire/Lighting/LightPut/Reading.antt =====
-- `LightPut` of apps/console-api/src/gen/hue/v1/lighting.ts, read as it was written.
use sharpn.Prelude.{ℕ, ◌+◌, ◌<◌, ◌≡◌, refl, subst, Option, none, some, [], arith}
use sharpn.Wire.{Wire, one_of}
use sharpn.Wire.Pieces.{Reads, nothing-Reads, ◌▹◌}
use sharpn.Wire.Kinds.{string_kind, int32_kind, IfSome, optional-Reads}
use sharpn.Wire.Message.{Message, within-Reads, maybe_within-Reads}
use sharpn.Wire.Common.On
use sharpn.Wire.Common.Dimming
use sharpn.Wire.Common.DimmingDelta
use sharpn.Wire.Common.ColorTemperatureDelta
use sharpn.Wire.Common.LightDynamics
use sharpn.Wire.Common.Alert
use sharpn.Wire.Common.Signaling
use sharpn.Wire.Common.Gradient
use sharpn.Wire.Common.Effects
use sharpn.Wire.Common.EffectsV2
use sharpn.Wire.Lighting.LightPutTimedEffects
use sharpn.Wire.Common.Powerup
use sharpn.Wire.Common.Color
use sharpn.Wire.Common.ColorTemperature
use sharpn.Wire.Lighting.LightPut.{
  LightPut, LightPutColour, color, color_temperature, LightPutColourFits, write_colour, base,
  IsSendable, encode, rows, decoder,
}

module _ (w : Wire) where
  colour-Reads :
      (depth : ℕ) (fine : 6 + depth < 100) (m : LightPut) (o : Option LightPutColour)
      → m.colour ≡ none
      → IfSome (LightPutColourFits w) o
      → Reads w (one_of (rows w depth)) (write_colour w o) m (record m { colour = o })
  colour-Reads depth fine m none free fits =
      subst (λ o. Reads w (one_of (rows w depth)) [] m (record m { colour = o })) free
        (nothing-Reads w (one_of (rows w depth)) m)
  colour-Reads depth fine m (some (color v)) free fits =
      within-Reads (Color.message w) (decoder w depth) 58 refl depth (omega (arith, fine))
        (λ v. record m { colour = some (color v) }) m v (λ r. refl) fits
  colour-Reads depth fine m (some (color_temperature v)) free fits =
      within-Reads (ColorTemperature.message w) (decoder w depth) 42 refl depth
        (omega (arith, fine)) (λ v. record m { colour = some (color_temperature v) }) m v
        (λ r. refl) fits

  pub encode-Reads :
      (m : LightPut)
      → IsSendable w m
      → (depth : ℕ) → 6 + depth < 100
      → Reads w (one_of (rows w depth)) (encode w m) base m
  encode-Reads m fits depth fine =
      let m1 : LightPut = record base { type = m.type } in
      let m2 : LightPut = record m1 { on = m.on } in
      let m3 : LightPut = record m2 { dimming = m.dimming } in
      let m4 : LightPut = record m3 { dimming_delta = m.dimming_delta } in
      let m5 : LightPut = record m4 { color_temperature_delta = m.color_temperature_delta } in
      let m6 : LightPut = record m5 { dynamics = m.dynamics } in
      let m7 : LightPut = record m6 { alert = m.alert } in
      let m8 : LightPut = record m7 { signaling = m.signaling } in
      let m9 : LightPut = record m8 { mode = m.mode } in
      let m10 : LightPut = record m9 { gradient = m.gradient } in
      let m11 : LightPut = record m10 { effects = m.effects } in
      let m12 : LightPut = record m11 { effects_v2 = m.effects_v2 } in
      let m13 : LightPut = record m12 { timed_effects = m.timed_effects } in
      let m14 : LightPut = record m13 { powerup = m.powerup } in
      optional-Reads w (decoder w depth) 10 refl (string_kind w) (λ v. record base { type = v })
        m.type (λ r. refl) fits.type
      ▹ maybe_within-Reads (On.message w) (decoder w depth) 18 refl depth (omega (arith, fine))
          (λ v. record m1 { on = v }) m.on (λ r. refl) fits.on
      ▹ maybe_within-Reads (Dimming.message w) (decoder w depth) 26 refl depth (omega (arith, fine))
          (λ v. record m2 { dimming = v }) m.dimming (λ r. refl) fits.dimming
      ▹ maybe_within-Reads (DimmingDelta.message w) (decoder w depth) 34 refl depth
          (omega (arith, fine)) (λ v. record m3 { dimming_delta = v }) m.dimming_delta (λ r. refl)
          fits.dimming_delta
      ▹ maybe_within-Reads (ColorTemperatureDelta.message w) (decoder w depth) 50 refl depth
          (omega (arith, fine)) (λ v. record m4 { color_temperature_delta = v })
          m.color_temperature_delta (λ r. refl) fits.color_temperature_delta
      ▹ maybe_within-Reads (LightDynamics.message w) (decoder w depth) 66 refl depth
          (omega (arith, fine)) (λ v. record m5 { dynamics = v }) m.dynamics (λ r. refl)
          fits.dynamics
      ▹ maybe_within-Reads (Alert.message w) (decoder w depth) 74 refl depth (omega (arith, fine))
          (λ v. record m6 { alert = v }) m.alert (λ r. refl) fits.alert
      ▹ maybe_within-Reads (Signaling.message w) (decoder w depth) 82 refl depth
          (omega (arith, fine)) (λ v. record m7 { signaling = v }) m.signaling (λ r. refl)
          fits.signaling
      ▹ optional-Reads w (decoder w depth) 88 refl (int32_kind w) (λ v. record m8 { mode = v })
          m.mode (λ r. refl) fits.mode
      ▹ maybe_within-Reads (Gradient.message w) (decoder w depth) 98 refl depth
          (omega (arith, fine)) (λ v. record m9 { gradient = v }) m.gradient (λ r. refl)
          fits.gradient
      ▹ maybe_within-Reads (Effects.message w) (decoder w depth) 106 refl depth
          (omega (arith, fine)) (λ v. record m10 { effects = v }) m.effects (λ r. refl) fits.effects
      ▹ maybe_within-Reads (EffectsV2.message w) (decoder w depth) 114 refl depth
          (omega (arith, fine)) (λ v. record m11 { effects_v2 = v }) m.effects_v2 (λ r. refl)
          fits.effects_v2
      ▹ maybe_within-Reads (LightPutTimedEffects.message w) (decoder w depth) 122 refl depth
          (omega (arith, fine)) (λ v. record m12 { timed_effects = v }) m.timed_effects (λ r. refl)
          fits.timed_effects
      ▹ maybe_within-Reads (Powerup.message w) (decoder w depth) 130 refl depth
          (omega (arith, fine)) (λ v. record m13 { powerup = v }) m.powerup (λ r. refl) fits.powerup
      ▹ colour-Reads depth fine m14 m.colour refl fits.colour

  abbrev pub message : Message w LightPut
  message = record {
    encode = encode w;
    decoder = decoder w;
    IsSendable = IsSendable w;
    height = 6;
    reads = encode-Reads;
  }
