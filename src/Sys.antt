-- ===== src/Sys.antt =====
-- The system calls of kernel/core/syscall.c on the descriptors of processes and the open files.
pub mod Fd
pub mod Counts
pub mod Refs
pub mod Ends
pub mod Open
pub mod Opening
pub mod System
pub mod Total
pub mod Paths
pub mod Links
pub mod Balance
pub mod Leaks
pub mod PathTests
pub mod Tests
