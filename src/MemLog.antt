-- ===== src/MemLog.antt =====
-- memlog.c: the log of the guest pages that the device has written.
pub mod Log
pub mod Marks
pub mod Tests
