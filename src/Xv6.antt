-- ===== src/Xv6.antt =====
-- The changes to the xv6 kernel: xv6/kernel.
pub mod Schedulers
pub mod Steps
pub mod Cfs
pub mod Trap
pub mod Files
mod Tests
