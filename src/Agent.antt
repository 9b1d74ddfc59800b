-- ===== src/Agent.antt =====
-- The agent on a blade (agent/).
pub mod BootConfig
pub mod Policy
pub mod Commands
pub mod Seed
