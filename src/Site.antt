-- ===== src/Site.antt =====
-- The site, sheath-site (site/).
pub mod Relay
pub mod Fat
pub mod State
