-- ===== src/Addresses.antt =====
-- python/zamlet/addresses.py: the address spaces of the machine and the translations between them.
pub mod Coords
pub mod Vline
pub mod Tlb
pub mod Register
