-- ===== src/Wire/Common.antt =====
-- The messages of apps/console-api/src/gen/hue/v1/common.ts in binary, a module for each.
pub mod Alert
pub mod Color
pub mod ColorTemperature
pub mod ColorTemperatureDelta
pub mod Dimming
pub mod DimmingDelta
pub mod Effects
pub mod EffectsV2
pub mod EffectsV2Action
pub mod EffectsV2Parameters
pub mod EffectsV2ParametersColorTemperature
pub mod EffectsV2Status
pub mod Error
pub mod GamutPosition
pub mod Gradient
pub mod LightDynamics
pub mod On
pub mod Powerup
pub mod PowerupDimming
pub mod PowerupDimmingColor
pub mod PowerupDimmingColorColorTemperature
pub mod PowerupOn
pub mod ResourceIdentifier
pub mod Signaling
