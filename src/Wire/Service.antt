-- ===== src/Wire/Service.antt =====
-- The messages of apps/console-api/src/gen/hue/v1/lighting_service.ts in binary, a module for each.
pub mod GetLightRequest
pub mod ListLightsRequest
pub mod ListLightsResponse
pub mod MutationResponse
pub mod UpdateLightRequest
