-- ===== src/Mem.antt =====
-- src/mem.c: memory management.
pub mod Alloc
pub mod Pool
pub mod Strtab
