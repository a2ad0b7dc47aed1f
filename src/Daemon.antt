-- ===== src/Daemon.antt =====
-- The daemon's own service, and the networks that it loads.
pub mod Profiles
pub mod Service
mod Tests
