-- ===== src/Interface.antt =====
-- libnetwork-daemon/src/interface and network-daemon/src/interface/table.rs: the interfaces, and the
-- table that indexes them.
pub mod Info
pub mod Link
pub mod Table
pub mod Machine
pub mod Manager
