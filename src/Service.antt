-- ===== src/Service.antt =====
-- apps/daemon/service: what the daemon serves to its desktop clients.
pub mod Broker
pub mod Reply
pub mod Reads
pub mod Writes
pub mod Daemon
mod Tests
mod RunTests
