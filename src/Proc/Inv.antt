-- ===== src/Proc/Inv.antt =====
-- The invariant that ties the run queues to the process table.
pub mod Defs
pub mod Heap
pub mod Levels
pub mod Pick
pub mod Steps
pub mod Waking
pub mod Killing
pub mod Living
pub mod Forking
pub mod Undoing
pub mod Exiting
pub mod Running
pub mod Clock
pub mod Waiting
pub mod Booting
pub mod Reaching
