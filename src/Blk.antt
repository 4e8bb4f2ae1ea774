-- ===== src/Blk.antt =====
-- virtio/virtio_blk.c and its headers: the block device type.
pub mod Device
pub mod Request
pub mod Register
pub mod Geometry
pub mod Space
pub mod Capacity
pub mod Once
pub mod Dispatch
pub mod Tests
