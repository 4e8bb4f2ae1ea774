-- ===== src/Virtq.antt =====
-- virtio/virt_queue.c and virtio/virt_queue.h: the split virtqueue of a device.
pub mod State
pub mod Chain
pub mod Walk
pub mod Chains
pub mod Safety
pub mod Inflight
pub mod Push
pub mod Publish
pub mod Writes
pub mod Recovery
pub mod Dequeue
pub mod Advance
pub mod Handed
pub mod Batch
pub mod Many
pub mod Tests
