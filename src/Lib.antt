-- ===== src/Lib.antt =====
-- The kernel of Assignment1/xv6-public, an xv6 with four schedulers and times for each process:
-- its process life cycle, run queues, clock and page allocator, spin and sleep locks, the
-- arguments of system calls, strings, the table of open files, pipes, and of the file system the
-- log, the buffer cache, the block allocator, the inode cache and path names; and of the user
-- programs the pattern matcher grep and numbers as text.
--
-- How the parts interact. A process is a slot of the process table (`ptable`). A process that
-- becomes RUNNABLE (fork, yield, wakeup1, kill, userinit in proc.c) also enters a run queue: under
-- FCFS the heap `pqueue`, under MLQ and DMLQ the ring of `multiqueue` for its priority, under
-- DEFAULT none. The scheduler takes its next process from that queue alone, so a process that is
-- RUNNABLE and not queued is lost, and one that is queued twice runs on two processors. The clock
-- (trap.c) ages the processes, wakes sleepers and ends time slices. The page allocator (kalloc.c)
-- gives out kernel stacks. The log (log.c) collects the blocks that the file system calls between
-- begin_op and end_op write, and commits them together. A pipe (pipe.c) is a queue of bytes
-- between two processes, which sleep and wake as it fills and empties. The buffer cache (bio.c)
-- keeps one buffer for a block in use, which the block allocator (fs.c) changes and hands to the
-- log. The descriptors of processes (sysfile.c) refer to open files (file.c), and the last one to
-- go closes the pipe or the inode behind the file.
--
-- Files and code, all under Assignment1/xv6-public/:
-- - Prelude: numbers, Boolean tests, lists, and sums over arrays that are functions on indices.
-- - Fcfs: `struct pqueue`, parent, leftchild, rightchild, shiftup, shiftdown, insert and remove of
--   proc.c. Fcfs.Order and Fcfs.Down: the heap order. Fcfs.Members: its processes as a multiset.
--   Fcfs.Remove: insert and remove.
-- - Mlq: `multiqueue`, isempty, enque and deque of proc.c. Mlq.Level: one ring. Mlq.Swap, with
--   Mlq.Swap.Straight, Mlq.Swap.Wrapped and Mlq.Swap.Ending: the search and the gap of swapque.
-- - Kalloc: kalloc.c. Kalloc.FreeList: the free list as a list. Kalloc.Range: freerange.
-- - Proc.Kernel: `struct proc` and `enum procstate` of proc.h, and the state. Proc.Ready: the
--   preprocessor branches that queue a process. Proc.Wake: sched, yield, sleep, wakeup1, wakeup,
--   kill. Proc.Life: allocproc, fork, exit. Proc.Wait: wait, waitnstats. Proc.Schedule: scheduler.
--   Proc.Time: updateprocesstimes, and the timer's part of trap in trap.c. Proc.Change: chpr and
--   swapque. Proc.System: userinit, and the kernel as a transition system.
-- - Proc.Inv: the invariant that ties queue and table (Proc.Inv.Booting: userinit), and what each
--   operation does from a state that has it. Proc.Changing: chpr.
-- - Log: `struct logheader`, install_trans, read_head, write_head, recover_from_log, write_log and
--   commit of log.c, and bwrite of bio.c. Log.Replay: copying the entries of a log. Log.Installing
--   and Log.Writing: the loops on a disk that loses power. Log.Crash: recovery. Log.Committing:
--   commit. Log.Ops: begin_op, log_write and end_op. Log.Reserved: the space that they reserve.
-- - Pipe: `struct pipe`, pipewrite, piperead and pipeclose of pipe.c. Pipe.Fifo: a pipe as a queue
--   of bytes. Pipe.Writing and Pipe.Reading: pipewrite and piperead.
-- - Bcache: bio.c. Bcache.Links: the list through next and prev. Bcache.Moves: taking a buffer out
--   and putting it in front. Bcache.Recent: binit and brelse. Bcache.Lookup: bget. Bcache.Unique:
--   bread.
-- - Fs.Bits, Fs.Bitmap: bzero, balloc and bfree of fs.c. Fs.Blocks: the search for a free block.
--   Fs.Marks: a change of a bit of the map. Fs.Allocated: balloc and bfree. Fs.Path: skipelem and
--   namex of fs.c. Fs.Path.Elements: the elements of a path. Fs.Path.Walk: namex. Fs.Inodes: iget
--   and idup of fs.c. Fs.Inodes.Getting: iget. Fs.Content: bmap of fs.c. Fs.Content.Words: the
--   entries of the indirect block. Fs.Content.Growing: a new block. Fs.Content.Mapped and
--   Fs.Content.Indirect: bmap.
-- - Ftable: filealloc, filedup and fileclose of file.c; argfd, fdalloc, sys_dup and sys_close of
--   sysfile.c. Ftable.Descriptors: argfd and fdalloc. Ftable.Holders: the reference counts.
--   Ftable.Allotting: filealloc.
-- - Spinlock: spinlock.c. Spinlock.Nesting: pushcli and popcli. Spinlock.Owner and Spinlock.Steps:
--   acquire and release on several CPUs. Sleeplock: sleeplock.c. Sleeplock.Holder: its holder.
-- - Strings: memmove, strncmp and safestrcpy of string.c, and memmove of ulib.c. Strings.Moving,
--   Strings.Comparing, Strings.Copying: each of the three.
-- - Syscall: fetchint, fetchstr, argint, argptr and argstr of syscall.c. Syscall.Bounds: argptr
--   and fetchstr.
-- - Numbers: printint of printf.c and atoi of ulib.c. Numbers.Reading: atoi of what printint
--   writes.
-- - Grep: match, matchhere and matchstar of grep.c. Grep.Pattern: what a pattern stands for.
--   Grep.Correct: match. Grep.Lines: the loops of grep.
-- - The modules called Tests: runs on concrete states.
--
-- How the state is represented. A process pointer is its slot, a null pointer is `none`. An
-- address is a number, 0 where null. An array is a function on indices; an access outside of its
-- bounds, a null access and a panic are the result `none` of the operation; swapque and chpr have an
-- `Outcome`, which tells an access out of bounds from a loop that did not end within its fuel, and
-- name the level whose `end` became -1. `Policy` stands for
-- the preprocessor symbols DEFAULT, FCFS, MLQ and DMLQ. Times are 32-bit words (`u32`); pids and
-- `switchnum` are numbers without a bound, and priorities are numbers, so a negative priority is
-- not covered. Outside of Spinlock and Sleeplock the locks are not part of the state: a step of
-- `Step` is what runs under `ptable.lock`, and steps of several processors come in any order. chpr
-- is modelled, but is no step of `Step`, since it does not check what it is given. wait and
-- waitnstats are one round of their loop, since between two rounds other processes run.
--
-- For the log a disk is a function from block number to content, and has a number of writes left
-- before it loses power; the kernel may go on after that, and the disk changes no more. A bwrite
-- is all of a block or nothing. A buffer is the cached content of its block.
--
-- Fuel. `shiftup_loop` has as much fuel as the index, which the parent's index is below;
-- `shiftdown_loop` as much as the size, which the index stays below; the loops over the
-- process table have NPROC rounds and over a ring NPROC + 2, more than it has indices; the
-- loops of bget have NBUF + 1 rounds, more than the list has buffers; find_free as many as
-- there are blocks; find_end as many as the process has bytes; namex one more than the path
-- has bytes; printint has 32 rounds, one for each bit; `freerange_loop` has one round for each
-- address up to the end; `kmemtop` takes its fuel as an argument.
--
-- For the spin lock a step is what a CPU does between two accesses that another CPU can see; for a
-- sleep lock it is what a process does under the spin lock inside.
--
-- Not modelled: in the process table trap frames, contexts, open files, directories and names;
-- page tables (vm.c), so that the results of setupkvm, copyuvm and freevm are arguments; `end`,
-- the linker's symbol, an argument too; the junk that kfree writes into a page; the content of
-- inodes and directories (what dirlookup finds is an argument of the walk of namex); pipealloc,
-- console, drivers, boot code, the other system calls and user programs.

pub mod Prelude
pub mod Fcfs
pub mod Mlq
pub mod Kalloc
pub mod Proc
pub mod Bcache
pub mod Fs
pub mod Ftable
pub mod Grep
pub mod Log
pub mod Numbers
pub mod Pipe
pub mod Sleeplock
pub mod Spinlock
pub mod Strings
pub mod Syscall
