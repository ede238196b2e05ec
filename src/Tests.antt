-- ===== src/Tests.antt =====
-- Runs of the theorems on concrete inputs.
mod Metering
mod Cookies
mod Bodies
mod Gateways
mod Sharing
mod Streams
mod Sends
mod Requests
mod Lives
mod Process
mod Shutdowns
mod Controls
mod Wires
