-- ===== src/Vdev.antt =====
-- vdev.c and vdev.h: the negotiation of features and the life of the vrings of a vhost-user device.
pub mod Features
pub mod Negotiation
pub mod Life
pub mod Settle
pub mod Running
pub mod Counts
pub mod Handlers
pub mod Lifecycle
pub mod Moves
pub mod Invariant
pub mod Safe
pub mod Stuck
pub mod Runs
pub mod Tests
