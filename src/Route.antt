-- ===== src/Route.antt =====
-- network-daemon/src/route: the tables of routes, and the manager that keeps them and the kernel in
-- step.
pub mod Api
pub mod Backup
pub mod Manager
pub mod Table
mod Tests
