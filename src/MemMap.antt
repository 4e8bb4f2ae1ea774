-- ===== src/MemMap.antt =====
-- memmap.c, memmap.h and objref.h: the guest memory map of a device.
pub mod Region
pub mod Translate
pub mod Os
pub mod Mapping
pub mod Slots
pub mod Layout
pub mod RoundTrip
pub mod Tests
