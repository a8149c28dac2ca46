-- ===== src/Proc.antt =====
-- Processes: Assignment1/xv6-public/proc.c and proc.h. The table `ptable`, the run queues, and the
-- operations that a process, an interrupt or the scheduler performs under `ptable.lock`.
-- The lock makes each operation one atomic step; it is not part of the state.
pub mod Kernel
pub mod Ready
pub mod Wake
pub mod Life
pub mod Wait
pub mod Schedule
pub mod Time
pub mod Find
pub mod System
pub mod Inv
pub mod Change
pub mod Changing
mod Tests
