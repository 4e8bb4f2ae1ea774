-- ===== src/Fs.antt =====
-- virtio/virtio_fs.c and its headers: the file system device type.
pub mod Device
pub mod Request
pub mod Space
pub mod Framing
pub mod Once
pub mod Dispatch
pub mod Tests
