-- ===== src/Proc.antt =====
-- Processes: kernel/core/proc.c. The process table and what its operations do to it are in
-- `Table` and `Exit`; `Image` has the memory of a process.
pub mod Table
pub mod Sched
pub mod Exit
pub mod Wait
pub mod Slots
pub mod Reaping
pub mod Parents
pub mod Layout
pub mod Image
pub mod Tests
