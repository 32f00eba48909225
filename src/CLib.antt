-- ===== src/CLib.antt =====
-- The C library of the kernel, student-distrib/lib.c.
pub mod Mem
pub mod Str
pub mod Itoa
mod Examples
