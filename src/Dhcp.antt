-- ===== src/Dhcp.antt =====
-- The DHCP client: leases, the retry loop, the client and its transactions, and the watchdog of its
-- timers.
pub mod Lease
pub mod Attempt
pub mod Client
pub mod Transactions
pub mod Watchdog
mod Tests
