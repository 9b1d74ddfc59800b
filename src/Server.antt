-- ===== src/Server.antt =====
-- The central server, sheathd (server/).
pub mod BootOrder
pub mod Accounts
pub mod Policy
pub mod Health
pub mod Fleet
mod Samples
pub mod Addressing
pub mod Reservations
pub mod Placement
pub mod Facts
pub mod Lifecycle
pub mod Calls
pub mod Config
pub mod Netboot
pub mod Provision
pub mod Racks
pub mod Sessions
pub mod Enroll
pub mod Agent
pub mod Alerts
pub mod Targets
