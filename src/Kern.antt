-- ===== src/Kern.antt =====
-- The kernel: kern/pmap.c, kern/env.c, kern/sched.c, kern/syscall.c, kern/trap.c, kern/kdebug.c and the
-- input of kern/console.c.
pub mod Machine
pub mod Page
pub mod PageTable
pub mod Env
pub mod Stabs
pub mod Syscall
pub mod Console
pub mod Trap
mod Tests
