-- ===== src/Wire/Lighting.antt =====
-- The messages of apps/console-api/src/gen/hue/v1/lighting.ts in binary, a module for each.
pub mod LightGet
pub mod LightGetAlert
pub mod LightGetColor
pub mod LightGetColorGamut
pub mod LightGetColorTemperature
pub mod LightGetColorTemperatureMirekSchema
pub mod LightGetDimming
pub mod LightGetDynamics
pub mod LightGetEffects
pub mod LightGetGeometry
pub mod LightGetGeometryPixelPositions
pub mod LightGetGradient
pub mod LightGetIdentify
pub mod LightGetMetadata
pub mod LightGetPowerup
pub mod LightGetPowerupDimming
pub mod LightGetPowerupDimmingColor
pub mod LightGetPowerupDimmingColorColorTemperature
pub mod LightGetPowerupOn
pub mod LightGetProductData
pub mod LightGetSignaling
pub mod LightGetTimedEffects
pub mod LightPut
pub mod LightPutTimedEffects
