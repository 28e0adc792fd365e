-- ===== src/Examples.antt =====
-- Concrete hosts, drivers and requests, and the theorems at them.
mod Hosts
mod Network
mod Storage
mod Server
mod Firecracker
mod Kraft
mod Runner
mod Concurrent
mod Qemu
mod Exec
mod Telemetry
mod EndToEnd
