-- ===== src/Wire/Lighting/LightGet.antt =====
-- `LightGet` of apps/console-api/src/gen/hue/v1/lighting.ts in binary.
pub mod Reading
use sharpn.Prelude.{ℕ, ◌+◌, Option, none, some, List, [], ◌∷◌, ◌++◌}
use sharpn.Prelude.Int.{ℤ, pos}
use sharpn.Prelude.Decimal.{Text}
use sharpn.Wire.{
  Bytes, Reader, IsInt32, Wire, Outcome, one_of, read_into, string_field, int32_field,
  optional_field,
}
use sharpn.Wire.Fields.{IsWritten}
use sharpn.Wire.Kinds.{string_kind, int32_kind, IfSome, one_of-IsLawful, kind-Ends, Decoder}
use sharpn.Wire.Message.{FitsWithin, within, within-Ends, write_within}
use sharpn.Wire.Common.ResourceIdentifier.{ResourceIdentifier}
use sharpn.Wire.Common.ResourceIdentifier
use sharpn.Wire.Lighting.LightGetMetadata.{LightGetMetadata}
use sharpn.Wire.Lighting.LightGetMetadata
use sharpn.Wire.Lighting.LightGetIdentify.{LightGetIdentify}
use sharpn.Wire.Lighting.LightGetIdentify
use sharpn.Wire.Common.On.{On}
use sharpn.Wire.Common.On
use sharpn.Wire.Lighting.LightGetDimming.{LightGetDimming}
use sharpn.Wire.Lighting.LightGetDimming
use sharpn.Wire.Lighting.LightGetColorTemperature.{LightGetColorTemperature}
use sharpn.Wire.Lighting.LightGetColorTemperature
use sharpn.Wire.Lighting.LightGetColor.{LightGetColor}
use sharpn.Wire.Lighting.LightGetColor
use sharpn.Wire.Lighting.LightGetDynamics.{LightGetDynamics}
use sharpn.Wire.Lighting.LightGetDynamics
use sharpn.Wire.Lighting.LightGetAlert.{LightGetAlert}
use sharpn.Wire.Lighting.LightGetAlert
use sharpn.Wire.Lighting.LightGetSignaling.{LightGetSignaling}
use sharpn.Wire.Lighting.LightGetSignaling
use sharpn.Wire.Lighting.LightGetGradient.{LightGetGradient}
use sharpn.Wire.Lighting.LightGetGradient
use sharpn.Wire.Lighting.LightGetEffects.{LightGetEffects}
use sharpn.Wire.Lighting.LightGetEffects
use sharpn.Wire.Common.EffectsV2.{EffectsV2}
use sharpn.Wire.Common.EffectsV2
use sharpn.Wire.Lighting.LightGetTimedEffects.{LightGetTimedEffects}
use sharpn.Wire.Lighting.LightGetTimedEffects
use sharpn.Wire.Lighting.LightGetPowerup.{LightGetPowerup}
use sharpn.Wire.Lighting.LightGetPowerup
use sharpn.Wire.Lighting.LightGetProductData.{LightGetProductData}
use sharpn.Wire.Lighting.LightGetProductData
use sharpn.Wire.Lighting.LightGetGeometry.{LightGetGeometry}
use sharpn.Wire.Lighting.LightGetGeometry

pub record LightGet : Type 0 where
  pub type : Text
  pub id : Text
  pub id_v1 : Option Text
  pub owner : Option ResourceIdentifier
  pub metadata : Option LightGetMetadata
  pub identify : Option LightGetIdentify
  pub service_id : ℤ
  pub on : Option On
  pub dimming : Option LightGetDimming
  pub color_temperature : Option LightGetColorTemperature
  pub color : Option LightGetColor
  pub dynamics : Option LightGetDynamics
  pub alert : Option LightGetAlert
  pub signaling : Option LightGetSignaling
  pub mode : ℤ
  pub gradient : Option LightGetGradient
  pub effects : Option LightGetEffects
  pub effects_v2 : Option EffectsV2
  pub timed_effects : Option LightGetTimedEffects
  pub powerup : Option LightGetPowerup
  pub product_data : Option LightGetProductData
  pub geometry : Option LightGetGeometry

abbrev pub base : LightGet
base = record {
  type = [];
  id = [];
  id_v1 = none;
  owner = none;
  metadata = none;
  identify = none;
  service_id = pos 0;
  on = none;
  dimming = none;
  color_temperature = none;
  color = none;
  dynamics = none;
  alert = none;
  signaling = none;
  mode = pos 0;
  gradient = none;
  effects = none;
  effects_v2 = none;
  timed_effects = none;
  powerup = none;
  product_data = none;
  geometry = none;
}

-- What fits in the message.
pub record IsSendable (w : Wire) (m : LightGet) : Type 0 where
  pub type : IsWritten w m.type
  pub id : IsWritten w m.id
  pub id_v1 : IfSome (IsWritten w) m.id_v1
  pub owner : IfSome (FitsWithin (ResourceIdentifier.message w)) m.owner
  pub metadata : IfSome (FitsWithin (LightGetMetadata.message w)) m.metadata
  pub identify : IfSome (FitsWithin (LightGetIdentify.message w)) m.identify
  pub service_id : IsInt32 m.service_id
  pub on : IfSome (FitsWithin (On.message w)) m.on
  pub dimming : IfSome (FitsWithin (LightGetDimming.message w)) m.dimming
  pub color_temperature :
      IfSome (FitsWithin (LightGetColorTemperature.message w)) m.color_temperature
  pub color : IfSome (FitsWithin (LightGetColor.message w)) m.color
  pub dynamics : IfSome (FitsWithin (LightGetDynamics.message w)) m.dynamics
  pub alert : IfSome (FitsWithin (LightGetAlert.message w)) m.alert
  pub signaling : IfSome (FitsWithin (LightGetSignaling.message w)) m.signaling
  pub mode : IsInt32 m.mode
  pub gradient : IfSome (FitsWithin (LightGetGradient.message w)) m.gradient
  pub effects : IfSome (FitsWithin (LightGetEffects.message w)) m.effects
  pub effects_v2 : IfSome (FitsWithin (EffectsV2.message w)) m.effects_v2
  pub timed_effects : IfSome (FitsWithin (LightGetTimedEffects.message w)) m.timed_effects
  pub powerup : IfSome (FitsWithin (LightGetPowerup.message w)) m.powerup
  pub product_data : IfSome (FitsWithin (LightGetProductData.message w)) m.product_data
  pub geometry : IfSome (FitsWithin (LightGetGeometry.message w)) m.geometry

module _ (w : Wire) where
  abbrev pub encode : LightGet → Bytes
  encode m =
      string_field w 10 m.type
      ++ string_field w 18 m.id
      ++ optional_field w 26 w.string m.id_v1
      ++ optional_field w 34 (write_within (ResourceIdentifier.message w)) m.owner
      ++ optional_field w 42 (write_within (LightGetMetadata.message w)) m.metadata
      ++ optional_field w 50 (write_within (LightGetIdentify.message w)) m.identify
      ++ int32_field w 56 m.service_id
      ++ optional_field w 66 (write_within (On.message w)) m.on
      ++ optional_field w 74 (write_within (LightGetDimming.message w)) m.dimming
      ++ optional_field w 82 (write_within (LightGetColorTemperature.message w)) m.color_temperature
      ++ optional_field w 90 (write_within (LightGetColor.message w)) m.color
      ++ optional_field w 98 (write_within (LightGetDynamics.message w)) m.dynamics
      ++ optional_field w 106 (write_within (LightGetAlert.message w)) m.alert
      ++ optional_field w 114 (write_within (LightGetSignaling.message w)) m.signaling
      ++ int32_field w 120 m.mode
      ++ optional_field w 130 (write_within (LightGetGradient.message w)) m.gradient
      ++ optional_field w 138 (write_within (LightGetEffects.message w)) m.effects
      ++ optional_field w 146 (write_within (EffectsV2.message w)) m.effects_v2
      ++ optional_field w 154 (write_within (LightGetTimedEffects.message w)) m.timed_effects
      ++ optional_field w 162 (write_within (LightGetPowerup.message w)) m.powerup
      ++ optional_field w 170 (write_within (LightGetProductData.message w)) m.product_data
      ++ optional_field w 178 (write_within (LightGetGeometry.message w)) m.geometry

  abbrev pub rows : ℕ → List (ℕ × (LightGet → Reader → Outcome LightGet))
  rows depth =
      (10, λ m r. read_into (λ v. record m { type = v }) (w.read_string r))
      ∷ (18, λ m r. read_into (λ v. record m { id = v }) (w.read_string r))
      ∷ (26, λ m r. read_into (λ v. record m { id_v1 = some v }) (w.read_string r))
      ∷ (34, λ m. within (ResourceIdentifier.message w) depth (λ v. record m { owner = some v }))
      ∷ (42, λ m. within (LightGetMetadata.message w) depth (λ v. record m { metadata = some v }))
      ∷ (50, λ m. within (LightGetIdentify.message w) depth (λ v. record m { identify = some v }))
      ∷ (56, λ m r. read_into (λ v. record m { service_id = v }) (w.read_int32 r))
      ∷ (66, λ m. within (On.message w) depth (λ v. record m { on = some v }))
      ∷ (74, λ m. within (LightGetDimming.message w) depth (λ v. record m { dimming = some v }))
      ∷ (
        82,
        λ m.
            within (LightGetColorTemperature.message w) depth
              (λ v. record m { color_temperature = some v }),
      )
      ∷ (90, λ m. within (LightGetColor.message w) depth (λ v. record m { color = some v }))
      ∷ (98, λ m. within (LightGetDynamics.message w) depth (λ v. record m { dynamics = some v }))
      ∷ (106, λ m. within (LightGetAlert.message w) depth (λ v. record m { alert = some v }))
      ∷ (
        114,
        λ m. within (LightGetSignaling.message w) depth (λ v. record m { signaling = some v }),
      )
      ∷ (120, λ m r. read_into (λ v. record m { mode = v }) (w.read_int32 r))
      ∷ (130, λ m. within (LightGetGradient.message w) depth (λ v. record m { gradient = some v }))
      ∷ (138, λ m. within (LightGetEffects.message w) depth (λ v. record m { effects = some v }))
      ∷ (146, λ m. within (EffectsV2.message w) depth (λ v. record m { effects_v2 = some v }))
      ∷ (
        154,
        λ m.
            within (LightGetTimedEffects.message w) depth
              (λ v. record m { timed_effects = some v }),
      )
      ∷ (162, λ m. within (LightGetPowerup.message w) depth (λ v. record m { powerup = some v }))
      ∷ (
        170,
        λ m. within (LightGetProductData.message w) depth (λ v. record m { product_data = some v }),
      )
      ∷ (178, λ m. within (LightGetGeometry.message w) depth (λ v. record m { geometry = some v }))
      ∷ []

  abbrev pub decoder : ℕ → Decoder LightGet
  decoder depth = record {
    base = base;
    cases = one_of (rows depth);
    lawful = one_of-IsLawful (rows depth) (
      (λ m. kind-Ends (string_kind w) _),
      (
        (λ m. kind-Ends (string_kind w) _),
        (
          (λ m. kind-Ends (string_kind w) _),
          (
            (λ m. within-Ends (ResourceIdentifier.message w) depth _),
            (
              (λ m. within-Ends (LightGetMetadata.message w) depth _),
              (
                (λ m. within-Ends (LightGetIdentify.message w) depth _),
                (
                  (λ m. kind-Ends (int32_kind w) _),
                  (
                    (λ m. within-Ends (On.message w) depth _),
                    (
                      (λ m. within-Ends (LightGetDimming.message w) depth _),
                      (
                        (λ m. within-Ends (LightGetColorTemperature.message w) depth _),
                        (
                          (λ m. within-Ends (LightGetColor.message w) depth _),
                          (
                            (λ m. within-Ends (LightGetDynamics.message w) depth _),
                            (
                              (λ m. within-Ends (LightGetAlert.message w) depth _),
                              (
                                (λ m. within-Ends (LightGetSignaling.message w) depth _),
                                (
                                  (λ m. kind-Ends (int32_kind w) _),
                                  (
                                    (λ m. within-Ends (LightGetGradient.message w) depth _),
                                    (
                                      (λ m. within-Ends (LightGetEffects.message w) depth _),
                                      (
                                        (λ m. within-Ends (EffectsV2.message w) depth _),
                                        (
                                          (λ m.
                                              within-Ends (LightGetTimedEffects.message w) depth _),
                                          (
                                            (λ m. within-Ends (LightGetPowerup.message w) depth _),
                                            (
                                              (λ m.
                                                  within-Ends (LightGetProductData.message w) depth
                                                    _),
                                              (
                                                (λ m.
                                                    within-Ends (LightGetGeometry.message w) depth
                                                      _),
                                                tt,
                                              ),
                                            ),
                                          ),
                                        ),
                                      ),
                                    ),
                                  ),
                                ),
                              ),
                            ),
                          ),
                        ),
                      ),
                    ),
                  ),
                ),
              ),
            ),
          ),
        ),
      ),
    );
  }
