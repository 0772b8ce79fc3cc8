-- ===== src/Lib.antt =====
-- The xv6 kernel of this repository, whose scheduler takes advice from an agent outside the machine, and
-- the two user programs that bring the advice in.
--
-- An agent reads the log that the kernel prints, and types lines `ADVICE:PID=<n>` at the console. The
-- router of xv6/user/init.c reads the console and writes these lines to a pipe that
-- xv6/user/llmhelper.c reads; llmhelper calls `set_llm_advice`, and the scheduler of
-- xv6/kernel/proc.c runs the process meant, once, as long as the advice is fresh.
--
-- Which file models what:
--   Base              numbers of 32 bits, arrays as lists, loops over arrays
--   Str               xv6/kernel/string.c
--   Proc/Defs         the data of xv6/kernel/proc.h: `Proc` is `struct proc`, `Kernel` the globals of
--                     proc.c and trap.c that it shares, `Services` the functions of other files
--   Proc/Alloc        procinit, allocpid, allocproc, freeproc, page tables, userinit, growproc
--   Proc/Wait         yield, sleep, wakeup, kkill, setkilled, killed
--   Proc/Life         kfork, reparent, kexit, kwait
--   Proc/Sched        scheduler
--   Proc/Stats        update_sched_stats, log_scheduling_state, clockintr of trap.c, set_llm_advice
--                     of sysproc.c
--   Proc/Inv          the invariant of the process table
--   Proc/Advice       what advice does to the scheduler
--   Proc/Family       exit and wait; Proc/Kill is about kill
--   Pipe              xv6/kernel/pipe.c
--   Log               xv6/kernel/log.c
--   User/Router       the router of xv6/user/init.c
--   User/Llmhelper    xv6/user/llmhelper.c
--   User/Delivery     the whole way of a line of advice
--   Vm                xv6/kernel/vm.c: Vm/Tree has the page table as a tree, Vm/User the copies
--   Fs                xv6/kernel/fs.c: the data of fs.h, Fs/FreeMap balloc and bfree, Fs/Map bmap,
--                     Fs/Content readi and writei, Fs/Trunc itrunc, Fs/Table the table of inodes,
--                     Fs/Dir directories, Fs/Path namex
--   Console           xv6/kernel/console.c: `edit` of Console/Spec is the line editor it implements
--   Kalloc            xv6/kernel/kalloc.c
--   Lock              xv6/kernel/spinlock.c and xv6/kernel/sleeplock.c
--   Files             the table of xv6/kernel/file.c
--
-- How the code is read:
--   * A function that runs under a lock from its start to its end, or to where it sleeps, is one step.
--     Steps of different processes come in any order. A sleep is a result of a step, and what happens
--     after the process has been woken is a step of its own.
--   * A pointer to a process is its index in `proc[]`. `uint` and `int` are patterns of 32 bits, numbers
--     below 2 ^ 32; an `int` from 2 ^ 31 on is negative. Sums and differences wrap.
--   * `swtch` is a parameter of `schedule`: what happens from the switch to a process until it comes
--     back. Proc/Inv/Turn has what a process may do there, as sequences of steps.
--   * The functions of other files that proc.c calls (memory, files) are the record `Services`, on a
--     state of their own, of which nothing is assumed; they are no steps of other processes, but for those in
--     `kexit`, whose sleeps are a parameter. A panic is the result `none`.
--   * Loops over an array recurse on the number of slots that are left; `kwait` is a pass of its endless
--     loop, `schedule` an iteration. Erasing a line at the console has one round for each
--     byte of it. So no function runs out of fuel.
--   * A transfer between kernel and user memory gives, for each byte, the byte or a fault.
--   * The buffer of llmhelper is an array without end with the indices of the source; User/Llmhelper/Buffered
--     shows that they cut out the lines.
--   * On the disk of Log the header and the blocks of the log are apart from the blocks that it protects;
--     `bwrite` of one block happens as a whole or not at all.
--
--   * In Fs the blocks of the free map, the inodes and the data blocks are kept apart, as the superblock
--     keeps their numbers apart; `bread` and `brelse` are without effect, and `log_write` notes the number
--     of the block. A loop has as many rounds as bytes, entries or characters are left, and the theorems
--     about it show that these are enough.
--   * In Vm the pages of page tables are arrays of entries and all other pages arrays of bytes.
--
-- Not modelled: the buffer cache, the system calls on files, exec, the rest of vm.c, drivers but for the
-- console, traps but for the clock, system call arguments, the shell, the small programs and tests, and
-- mkfs. More than one CPU that runs processes at the same time is not modelled either: the steps of CPUs
-- interleave, but the scheduler's invariant is about one. Nor are processes that wait for each other at a
-- locked inode: Fs is about one process.
pub mod Base
pub mod Str
pub mod Vm
pub mod Console
pub mod Files
pub mod Fs
pub mod Kalloc
pub mod Log
pub mod Lock
pub mod Pipe
pub mod Proc
pub mod User
