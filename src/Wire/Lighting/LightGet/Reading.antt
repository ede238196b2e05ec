-- ===== src/Wire/Lighting/LightGet/Reading.antt =====
-- `LightGet` of apps/console-api/src/gen/hue/v1/lighting.ts, read as it was written.
use sharpn.Prelude.{ℕ, ◌+◌, ◌<◌, refl, arith}
use sharpn.Wire.{Wire, one_of}
use sharpn.Wire.Pieces.{Reads, ◌▹◌}
use sharpn.Wire.Kinds.{string_kind, optional-Reads, string_field-Reads, int32_field-Reads}
use sharpn.Wire.Message.{Message, maybe_within-Reads}
use sharpn.Wire.Common.ResourceIdentifier
use sharpn.Wire.Lighting.LightGetMetadata
use sharpn.Wire.Lighting.LightGetIdentify
use sharpn.Wire.Common.On
use sharpn.Wire.Lighting.LightGetDimming
use sharpn.Wire.Lighting.LightGetColorTemperature
use sharpn.Wire.Lighting.LightGetColor
use sharpn.Wire.Lighting.LightGetDynamics
use sharpn.Wire.Lighting.LightGetAlert
use sharpn.Wire.Lighting.LightGetSignaling
use sharpn.Wire.Lighting.LightGetGradient
use sharpn.Wire.Lighting.LightGetEffects
use sharpn.Wire.Common.EffectsV2
use sharpn.Wire.Lighting.LightGetTimedEffects
use sharpn.Wire.Lighting.LightGetPowerup
use sharpn.Wire.Lighting.LightGetProductData
use sharpn.Wire.Lighting.LightGetGeometry
use sharpn.Wire.Lighting.LightGet.{LightGet, base, IsSendable, encode, rows, decoder}

module _ (w : Wire) where
  pub encode-Reads :
      (m : LightGet)
      → IsSendable w m
      → (depth : ℕ) → 6 + depth < 100
      → Reads w (one_of (rows w depth)) (encode w m) base m
  encode-Reads m fits depth fine =
      let m1 : LightGet = record base { type = m.type } in
      let m2 : LightGet = record m1 { id = m.id } in
      let m3 : LightGet = record m2 { id_v1 = m.id_v1 } in
      let m4 : LightGet = record m3 { owner = m.owner } in
      let m5 : LightGet = record m4 { metadata = m.metadata } in
      let m6 : LightGet = record m5 { identify = m.identify } in
      let m7 : LightGet = record m6 { service_id = m.service_id } in
      let m8 : LightGet = record m7 { on = m.on } in
      let m9 : LightGet = record m8 { dimming = m.dimming } in
      let m10 : LightGet = record m9 { color_temperature = m.color_temperature } in
      let m11 : LightGet = record m10 { color = m.color } in
      let m12 : LightGet = record m11 { dynamics = m.dynamics } in
      let m13 : LightGet = record m12 { alert = m.alert } in
      let m14 : LightGet = record m13 { signaling = m.signaling } in
      let m15 : LightGet = record m14 { mode = m.mode } in
      let m16 : LightGet = record m15 { gradient = m.gradient } in
      let m17 : LightGet = record m16 { effects = m.effects } in
      let m18 : LightGet = record m17 { effects_v2 = m.effects_v2 } in
      let m19 : LightGet = record m18 { timed_effects = m.timed_effects } in
      let m20 : LightGet = record m19 { powerup = m.powerup } in
      let m21 : LightGet = record m20 { product_data = m.product_data } in
      string_field-Reads w (decoder w depth) 10 refl (λ v. record base { type = v }) m.type
        (λ r. refl) fits.type
      ▹ string_field-Reads w (decoder w depth) 18 refl (λ v. record m1 { id = v }) m.id (λ r. refl)
          fits.id
      ▹ optional-Reads w (decoder w depth) 26 refl (string_kind w) (λ v. record m2 { id_v1 = v })
          m.id_v1 (λ r. refl) fits.id_v1
      ▹ maybe_within-Reads (ResourceIdentifier.message w) (decoder w depth) 34 refl depth
          (omega (arith, fine)) (λ v. record m3 { owner = v }) m.owner (λ r. refl) fits.owner
      ▹ maybe_within-Reads (LightGetMetadata.message w) (decoder w depth) 42 refl depth
          (omega (arith, fine)) (λ v. record m4 { metadata = v }) m.metadata (λ r. refl)
          fits.metadata
      ▹ maybe_within-Reads (LightGetIdentify.message w) (decoder w depth) 50 refl depth
          (omega (arith, fine)) (λ v. record m5 { identify = v }) m.identify (λ r. refl)
          fits.identify
      ▹ int32_field-Reads w (decoder w depth) 56 refl (λ v. record m6 { service_id = v })
          m.service_id (λ r. refl) fits.service_id
      ▹ maybe_within-Reads (On.message w) (decoder w depth) 66 refl depth (omega (arith, fine))
          (λ v. record m7 { on = v }) m.on (λ r. refl) fits.on
      ▹ maybe_within-Reads (LightGetDimming.message w) (decoder w depth) 74 refl depth
          (omega (arith, fine)) (λ v. record m8 { dimming = v }) m.dimming (λ r. refl) fits.dimming
      ▹ maybe_within-Reads (LightGetColorTemperature.message w) (decoder w depth) 82 refl depth
          (omega (arith, fine)) (λ v. record m9 { color_temperature = v }) m.color_temperature
          (λ r. refl) fits.color_temperature
      ▹ maybe_within-Reads (LightGetColor.message w) (decoder w depth) 90 refl depth
          (omega (arith, fine)) (λ v. record m10 { color = v }) m.color (λ r. refl) fits.color
      ▹ maybe_within-Reads (LightGetDynamics.message w) (decoder w depth) 98 refl depth
          (omega (arith, fine)) (λ v. record m11 { dynamics = v }) m.dynamics (λ r. refl)
          fits.dynamics
      ▹ maybe_within-Reads (LightGetAlert.message w) (decoder w depth) 106 refl depth
          (omega (arith, fine)) (λ v. record m12 { alert = v }) m.alert (λ r. refl) fits.alert
      ▹ maybe_within-Reads (LightGetSignaling.message w) (decoder w depth) 114 refl depth
          (omega (arith, fine)) (λ v. record m13 { signaling = v }) m.signaling (λ r. refl)
          fits.signaling
      ▹ int32_field-Reads w (decoder w depth) 120 refl (λ v. record m14 { mode = v }) m.mode
          (λ r. refl) fits.mode
      ▹ maybe_within-Reads (LightGetGradient.message w) (decoder w depth) 130 refl depth
          (omega (arith, fine)) (λ v. record m15 { gradient = v }) m.gradient (λ r. refl)
          fits.gradient
      ▹ maybe_within-Reads (LightGetEffects.message w) (decoder w depth) 138 refl depth
          (omega (arith, fine)) (λ v. record m16 { effects = v }) m.effects (λ r. refl) fits.effects
      ▹ maybe_within-Reads (EffectsV2.message w) (decoder w depth) 146 refl depth
          (omega (arith, fine)) (λ v. record m17 { effects_v2 = v }) m.effects_v2 (λ r. refl)
          fits.effects_v2
      ▹ maybe_within-Reads (LightGetTimedEffects.message w) (decoder w depth) 154 refl depth
          (omega (arith, fine)) (λ v. record m18 { timed_effects = v }) m.timed_effects (λ r. refl)
          fits.timed_effects
      ▹ maybe_within-Reads (LightGetPowerup.message w) (decoder w depth) 162 refl depth
          (omega (arith, fine)) (λ v. record m19 { powerup = v }) m.powerup (λ r. refl) fits.powerup
      ▹ maybe_within-Reads (LightGetProductData.message w) (decoder w depth) 170 refl depth
          (omega (arith, fine)) (λ v. record m20 { product_data = v }) m.product_data (λ r. refl)
          fits.product_data
      ▹ maybe_within-Reads (LightGetGeometry.message w) (decoder w depth) 178 refl depth
          (omega (arith, fine)) (λ v. record m21 { geometry = v }) m.geometry (λ r. refl)
          fits.geometry

  abbrev pub message : Message w LightGet
  message = record {
    encode = encode w;
    decoder = decoder w;
    IsSendable = IsSendable w;
    height = 6;
    reads = encode-Reads;
  }
