-- ===== src/Lock.antt =====
-- Interrupt nesting, spinlocks and sleep-locks: kernel/core/intr.c, spinlock.c and sleeplock.c.
pub mod Intr
pub mod Spin
pub mod Harts
pub mod Sleep
pub mod Tests
