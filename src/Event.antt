-- ===== src/Event.antt =====
-- event.c: the bottom halves, the notification, the io handlers and the run of an event loop.
pub mod Bh
pub mod Pending
pub mod Called
pub mod Notify
pub mod Awake
pub mod Handlers
pub mod Ready
pub mod Run
pub mod Tests
