-- ===== src/Dashboard.antt =====
-- src/agent_agora/dashboard: what the server keeps in memory for the operators' pages.
pub mod Events
pub mod LogBuffer
pub mod Metrics
pub mod Auth
pub mod Credentials
