-- ===== src/Daemon.antt =====
-- pkg/daemon: the REST server, its drivers and the identities of instances.
pub mod Ids
pub mod Taps
pub mod Types
pub mod Config
pub mod Telemetry
pub mod Table
pub mod Writer
pub mod Drivers
pub mod Server
pub mod EndToEnd
