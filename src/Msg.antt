-- ===== src/Msg.antt =====
-- The messages of a vhost-user connection (vdev.c), from the socket to the reply.
pub mod Net
pub mod State
pub mod Reply
pub mod Features
pub mod Rings
pub mod Memory
pub mod Inflight
pub mod Dispatch
pub mod Close
pub mod Read
pub mod Bottom
pub mod Stranded
pub mod Settles
pub mod Outcome
pub mod Held
pub mod Balance
pub mod Sockets
pub mod Descriptors
pub mod Regions
pub mod Paired
pub mod Leaks
pub mod Runs
pub mod Returns
mod Tests
