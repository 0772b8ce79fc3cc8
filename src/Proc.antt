-- ===== src/Proc.antt =====
-- kernel/proc.c and kernel/proc.h: the process table and the scheduler that takes advice.
pub mod Defs
pub mod Alloc
pub mod Wait
pub mod Life
pub mod Sched
pub mod Stats
pub mod Inv
pub mod Advice
pub mod Kill
pub mod Family
pub mod Tests
mod FamilyTests
