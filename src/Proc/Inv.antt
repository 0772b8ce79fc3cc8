-- ===== src/Proc/Inv.antt =====
-- The invariant of the process table, and that the functions of kernel/proc.c keep it.
pub mod Defs
pub mod Tables
pub mod Distinct
pub mod Gentle
pub mod Calls
pub mod Alloc
pub mod Fork
pub mod Boot
pub mod Turn
pub mod Exit
pub mod Sched
