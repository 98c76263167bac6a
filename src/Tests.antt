-- ===== src/Tests.antt =====
-- Small runs of the operations, and the theorems at concrete inputs.
pub mod Scenario
pub mod Messages
pub mod Registries
pub mod Upkeep
pub mod Restarts
pub mod Tools
pub mod Shared
pub mod Queries
pub mod Callers
