-- ===== src/Lib.antt =====
-- LaminaAtrium, a simulated operating system: a multi-level queue scheduler, paging with five levels
-- of directories, and the memory routines that processes call. The CPUs (src/os.c) take processes
-- from the scheduler, run their instructions (src/cpu.c), and put them back; an instruction that needs
-- memory goes through src/libmem.c, system call 17 (src/sys_mem.c), the areas of the process
-- (src/mm-vm.c) and the page directories (src/mm64.c) to the frames of a device (src/mm-memphy.c).
--
-- Which file models which part:
-- - Base: numbers, lists and bits that the others share. Words: the macros of include/bitops.h,
--   include/mm.h and include/mm64.h.
-- - Queue: src/queue.c. `enqueue`, `dequeue`, `purgequeue` are the functions of that name; Queue/Fifo
--   is the abstract list that they implement, Queue/Refine relates the two, and Queue/View forgets what
--   the array holds behind its end.
-- - Sched: src/sched.c under `MLQ_SCHED`, with the static queues and budgets as one record; Sched/Plain
--   is the policy without it.
-- - Memphy: src/mm-memphy.c and `__swap_cp_page`.
-- - Mm: the structures of include/os-mm.h; a function that reaches them through `caller` takes and
--   returns a `Caller`, and `none` is a fault, such as a read through NULL.
-- - Paging: src/mm64.c. Addr has the indices of an address, Pte the bits of an entry, Table the walk
--   of `pteTravelling` and the functions over it, Range the mapping of a range of pages.
-- - Regions and Pages: the list of free regions and the list of pages in use.
-- - Vm: src/mm-vm.c. Syscall: src/sys_mem.c. Libmem: src/libmem.c.
--   Syscall/Table: the calls by number, src/sys_getprocinfo.c and src/libstd.c.
-- - Cpu: `run` of src/cpu.c. Loader: src/loader.c. Os: rounds of `cpu_routine` and `ld_routine` of
--   src/os.c, between two calls of `next_slot`.
--   Os/System: several CPUs and the loader, whose turns alternate in any order; a round of a CPU is
--   cut at its calls of the scheduler (`cpu_step`), and a list of turns says whose turn it is.
--   Os/Boot: `read_config`, and `main` up to the start of the threads.
-- - Timer: src/timer.c, with each thread as a place in its function; a step is a critical section.
-- - Mem: src/mem.c and the instructions over it, which `MM_PAGING` replaces.
-- - Tests: concrete states, and the theorems applied to them.
--
-- Parameters: `malloc` for a table of a directory is a function of the tables in use; it is taken to
-- give only blocks that are not in use and not at address 0 (`IsMalloc`), and so is `malloc` for a
-- process (`IsFresh`). What a file under input/proc holds is a function of its name (`Files`). Where
-- the code tests the result of `malloc` for a small descriptor, a parameter `node` tells the result;
-- where it does not test it, there is memory. Memory that nothing has written, or that was freed, is
-- a parameter (`junk`, `byte`, `physical_addr`, `freed`).
--
-- Bounds: `addr_t` and `uint64_t` values wrap at 2 ^ 64, entries are read in 32 bits, an `int` is the
-- pattern of its 32 bits. Loops recurse on the list that they run through or on the number of rounds
-- that their condition allows; the loop of `MEMPHY_mv_csr` has `maxsz + 1` tests, which are
-- enough for every size below 2 ^ 31, and no result if it needed more.
--
-- Locks are not modelled: each function is one step, as the locks `queue_lock` and `mmvm_lock` make it
-- for the scheduler and for src/libmem.c. In Os/System an instruction of a process is one turn, and so
-- is a round of the loader. In src/timer.c a step is what a thread does under one lock. Not
-- modelled are how `fscanf` takes the characters of the configuration and of a program's file apart, the
-- functions that print, and src/mm.c, which is not compiled with `MM64`.
pub mod Base
pub mod Words
pub mod Queue
pub mod Sched
pub mod Mem
pub mod Memphy
pub mod Mm
pub mod Paging
pub mod Regions
pub mod Pages
pub mod Vm
pub mod Syscall
pub mod Libmem
pub mod Cpu
pub mod Loader
pub mod Os
pub mod Timer
pub mod Tests
