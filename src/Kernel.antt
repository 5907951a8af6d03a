-- ===== src/Kernel.antt =====
-- What the C code takes from the Linux kernel: interfaces, not implementations.
pub mod Bitops
