-- ===== src/Service.antt =====
-- The HTTP service of the runtime host,
-- cert/beamscale-critical-section/infra-runtime-host/src/main.rs.
pub mod Json
pub mod Types
pub mod Checks
pub mod Stream
pub mod Transfer
pub mod State
pub mod Authority
pub mod Activations
pub mod Handlers
pub mod Invocations
pub mod Guest
pub mod Observations
pub mod Steps
pub mod Kept
pub mod Authorized
pub mod Admission
pub mod Replay
pub mod Once
pub mod Results
pub mod Admitted
pub mod Counted
pub mod Lasting
pub mod Activated
pub mod Busy
pub mod Requests
pub mod Delivery
mod Examples
