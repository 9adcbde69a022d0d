-- ===== src/Host.antt =====
-- The runtime host, cert/beamscale-critical-section/infra-runtime-host/src/lib.rs.
pub mod Types
pub mod System
pub mod Path
pub mod Validate
pub mod Words
pub mod Files
pub mod Layout
pub mod Jail
pub mod Client
pub mod Vm
pub mod State
pub mod Sections
pub mod Ops
pub mod Sweep
pub mod Invariant
pub mod Changes
pub mod Safe
pub mod Elsewhere
pub mod Spared
pub mod Interleaving
pub mod Refusals
pub mod Stale
pub mod Outcomes
pub mod Races
pub mod Rollback
pub mod Decimal
pub mod Config
pub mod Settings
pub mod Waiting
mod Examples
pub mod Metering
