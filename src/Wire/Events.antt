-- ===== src/Wire/Events.antt =====
-- The messages of apps/console-api/src/gen/hue/v1/event_service.ts in binary, a module for each.
pub mod Gap
pub mod SubscribeRequest
