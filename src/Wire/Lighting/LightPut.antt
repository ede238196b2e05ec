-- ===== src/Wire/Lighting/LightPut.antt =====
-- `LightPut` of apps/console-api/src/gen/hue/v1/lighting.ts in binary.
pub mod Reading
use sharpn.Prelude.{ℕ, ◌+◌, Option, none, some, List, [], ◌∷◌, ◌++◌}
use sharpn.Prelude.Int.{ℤ}
use sharpn.Prelude.Decimal.{Text}
use sharpn.Wire.{Bytes, Reader, IsInt32, Wire, Outcome, one_of, read_into, optional_field}
use sharpn.Wire.Fields.{IsWritten}
use sharpn.Wire.Kinds.{string_kind, int32_kind, IfSome, one_of-IsLawful, kind-Ends, Decoder}
use sharpn.Wire.Message.{FitsWithin, within, within-Ends, write_within}
use sharpn.Wire.Common.On.{On}
use sharpn.Wire.Common.On
use sharpn.Wire.Common.Dimming.{Dimming}
use sharpn.Wire.Common.Dimming
use sharpn.Wire.Common.DimmingDelta.{DimmingDelta}
use sharpn.Wire.Common.DimmingDelta
use sharpn.Wire.Common.ColorTemperatureDelta.{ColorTemperatureDelta}
use sharpn.Wire.Common.ColorTemperatureDelta
use sharpn.Wire.Common.LightDynamics.{LightDynamics}
use sharpn.Wire.Common.LightDynamics
use sharpn.Wire.Common.Alert.{Alert}
use sharpn.Wire.Common.Alert
use sharpn.Wire.Common.Signaling.{Signaling}
use sharpn.Wire.Common.Signaling
use sharpn.Wire.Common.Gradient.{Gradient}
use sharpn.Wire.Common.Gradient
use sharpn.Wire.Common.Effects.{Effects}
use sharpn.Wire.Common.Effects
use sharpn.Wire.Common.EffectsV2.{EffectsV2}
use sharpn.Wire.Common.EffectsV2
use sharpn.Wire.Lighting.LightPutTimedEffects.{LightPutTimedEffects}
use sharpn.Wire.Lighting.LightPutTimedEffects
use sharpn.Wire.Common.Powerup.{Powerup}
use sharpn.Wire.Common.Powerup
use sharpn.Wire.Common.Color.{Color}
use sharpn.Wire.Common.Color
use sharpn.Wire.Common.ColorTemperature.{ColorTemperature}
use sharpn.Wire.Common.ColorTemperature

pub data LightPutColour : Type 0 where
  color : Color → LightPutColour
  color_temperature : ColorTemperature → LightPutColour

pub record LightPut : Type 0 where
  pub type : Option Text
  pub on : Option On
  pub dimming : Option Dimming
  pub dimming_delta : Option DimmingDelta
  pub color_temperature_delta : Option ColorTemperatureDelta
  pub dynamics : Option LightDynamics
  pub alert : Option Alert
  pub signaling : Option Signaling
  pub mode : Option ℤ
  pub gradient : Option Gradient
  pub effects : Option Effects
  pub effects_v2 : Option EffectsV2
  pub timed_effects : Option LightPutTimedEffects
  pub powerup : Option Powerup
  pub colour : Option LightPutColour

abbrev pub base : LightPut
base = record {
  type = none;
  on = none;
  dimming = none;
  dimming_delta = none;
  color_temperature_delta = none;
  dynamics = none;
  alert = none;
  signaling = none;
  mode = none;
  gradient = none;
  effects = none;
  effects_v2 = none;
  timed_effects = none;
  powerup = none;
  colour = none;
}

abbrev pub LightPutColourFits : Wire → LightPutColour → Type 0
LightPutColourFits w (color v) = FitsWithin (Color.message w) v
LightPutColourFits w (color_temperature v) = FitsWithin (ColorTemperature.message w) v

-- What fits in the message.
pub record IsSendable (w : Wire) (m : LightPut) : Type 0 where
  pub type : IfSome (IsWritten w) m.type
  pub on : IfSome (FitsWithin (On.message w)) m.on
  pub dimming : IfSome (FitsWithin (Dimming.message w)) m.dimming
  pub dimming_delta : IfSome (FitsWithin (DimmingDelta.message w)) m.dimming_delta
  pub color_temperature_delta :
      IfSome (FitsWithin (ColorTemperatureDelta.message w)) m.color_temperature_delta
  pub dynamics : IfSome (FitsWithin (LightDynamics.message w)) m.dynamics
  pub alert : IfSome (FitsWithin (Alert.message w)) m.alert
  pub signaling : IfSome (FitsWithin (Signaling.message w)) m.signaling
  pub mode : IfSome IsInt32 m.mode
  pub gradient : IfSome (FitsWithin (Gradient.message w)) m.gradient
  pub effects : IfSome (FitsWithin (Effects.message w)) m.effects
  pub effects_v2 : IfSome (FitsWithin (EffectsV2.message w)) m.effects_v2
  pub timed_effects : IfSome (FitsWithin (LightPutTimedEffects.message w)) m.timed_effects
  pub powerup : IfSome (FitsWithin (Powerup.message w)) m.powerup
  pub colour : IfSome (LightPutColourFits w) m.colour

module _ (w : Wire) where
  abbrev pub write_colour : Option LightPutColour → Bytes
  write_colour none = []
  write_colour (some (color v)) = w.uint32 58 ++ write_within (Color.message w) v
  write_colour (some (color_temperature v)) =
      w.uint32 42 ++ write_within (ColorTemperature.message w) v

  abbrev pub encode : LightPut → Bytes
  encode m =
      optional_field w 10 w.string m.type
      ++ optional_field w 18 (write_within (On.message w)) m.on
      ++ optional_field w 26 (write_within (Dimming.message w)) m.dimming
      ++ optional_field w 34 (write_within (DimmingDelta.message w)) m.dimming_delta
      ++ optional_field w 50 (write_within (ColorTemperatureDelta.message w))
          m.color_temperature_delta
      ++ optional_field w 66 (write_within (LightDynamics.message w)) m.dynamics
      ++ optional_field w 74 (write_within (Alert.message w)) m.alert
      ++ optional_field w 82 (write_within (Signaling.message w)) m.signaling
      ++ optional_field w 88 w.int32 m.mode
      ++ optional_field w 98 (write_within (Gradient.message w)) m.gradient
      ++ optional_field w 106 (write_within (Effects.message w)) m.effects
      ++ optional_field w 114 (write_within (EffectsV2.message w)) m.effects_v2
      ++ optional_field w 122 (write_within (LightPutTimedEffects.message w)) m.timed_effects
      ++ optional_field w 130 (write_within (Powerup.message w)) m.powerup
      ++ write_colour m.colour

  abbrev pub rows : ℕ → List (ℕ × (LightPut → Reader → Outcome LightPut))
  rows depth =
      (10, λ m r. read_into (λ v. record m { type = some v }) (w.read_string r))
      ∷ (18, λ m. within (On.message w) depth (λ v. record m { on = some v }))
      ∷ (26, λ m. within (Dimming.message w) depth (λ v. record m { dimming = some v }))
      ∷ (34, λ m. within (DimmingDelta.message w) depth (λ v. record m { dimming_delta = some v }))
      ∷ (
        50,
        λ m.
            within (ColorTemperatureDelta.message w) depth
              (λ v. record m { color_temperature_delta = some v }),
      )
      ∷ (66, λ m. within (LightDynamics.message w) depth (λ v. record m { dynamics = some v }))
      ∷ (74, λ m. within (Alert.message w) depth (λ v. record m { alert = some v }))
      ∷ (82, λ m. within (Signaling.message w) depth (λ v. record m { signaling = some v }))
      ∷ (88, λ m r. read_into (λ v. record m { mode = some v }) (w.read_int32 r))
      ∷ (98, λ m. within (Gradient.message w) depth (λ v. record m { gradient = some v }))
      ∷ (106, λ m. within (Effects.message w) depth (λ v. record m { effects = some v }))
      ∷ (114, λ m. within (EffectsV2.message w) depth (λ v. record m { effects_v2 = some v }))
      ∷ (
        122,
        λ m.
            within (LightPutTimedEffects.message w) depth
              (λ v. record m { timed_effects = some v }),
      )
      ∷ (130, λ m. within (Powerup.message w) depth (λ v. record m { powerup = some v }))
      ∷ (58, λ m. within (Color.message w) depth (λ v. record m { colour = some (color v) }))
      ∷ (
        42,
        λ m.
            within (ColorTemperature.message w) depth
              (λ v. record m { colour = some (color_temperature v) }),
      )
      ∷ []

  abbrev pub decoder : ℕ → Decoder LightPut
  decoder depth = record {
    base = base;
    cases = one_of (rows depth);
    lawful = one_of-IsLawful (rows depth) (
      (λ m. kind-Ends (string_kind w) _),
      (
        (λ m. within-Ends (On.message w) depth _),
        (
          (λ m. within-Ends (Dimming.message w) depth _),
          (
            (λ m. within-Ends (DimmingDelta.message w) depth _),
            (
              (λ m. within-Ends (ColorTemperatureDelta.message w) depth _),
              (
                (λ m. within-Ends (LightDynamics.message w) depth _),
                (
                  (λ m. within-Ends (Alert.message w) depth _),
                  (
                    (λ m. within-Ends (Signaling.message w) depth _),
                    (
                      (λ m. kind-Ends (int32_kind w) _),
                      (
                        (λ m. within-Ends (Gradient.message w) depth _),
                        (
                          (λ m. within-Ends (Effects.message w) depth _),
                          (
                            (λ m. within-Ends (EffectsV2.message w) depth _),
                            (
                              (λ m. within-Ends (LightPutTimedEffects.message w) depth _),
                              (
                                (λ m. within-Ends (Powerup.message w) depth _),
                                (
                                  (λ m. within-Ends (Color.message w) depth _),
                                  ((λ m. within-Ends (ColorTemperature.message w) depth _), tt),
                                ),
                              ),
                            ),
                          ),
                        ),
                      ),
                    ),
                  ),
                ),
              ),
            ),
          ),
        ),
      ),
    );
  }
