-- ===== src/Rq.antt =====
-- server.c: the request queue between the vrings and the backend.
pub mod Queue
pub mod Cancel
pub mod Complete
pub mod Stop
pub mod Drops
pub mod System
pub mod Invariant
pub mod Progress
pub mod Tests
