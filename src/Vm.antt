-- ===== src/Vm.antt =====
-- Virtual memory: kernel/core/vm.c and the paging macros of kernel/include/riscv.h.
pub mod Pte
pub mod Walk
pub mod User
pub mod Free
pub mod Copy
pub mod Bytes
pub mod Tests
