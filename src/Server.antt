-- ===== src/Server.antt =====
-- The vhost server with its thread (server.c), and its devices (vdev.c, fs.c).
pub mod Thread
pub mod Stops
pub mod Devices
pub mod Registered
pub mod Tests
