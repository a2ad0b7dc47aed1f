-- ===== src/Wifi.antt =====
-- The WiFi of the daemon: what wpa_supplicant reports, what is asked of it, and the managers of both.
pub mod Security
pub mod Network
pub mod Status
pub mod Events
pub mod Commands
pub mod Actions
pub mod Control
pub mod Supplicant
pub mod Manager
