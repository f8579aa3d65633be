-- ===== src/Syscall/Table.antt =====
-- The calls by their numbers (src/syscall.c, src/syscalltbl.lst), the two calls beside 17
-- (src/sys_listsyscall.c, src/sys_getprocinfo.c), and the routine through which a process calls
-- them (src/libstd.c). What a call prints is left out.
pub mod Info
use os_lamina_atrium.Base.{
  ℕ, ◌-◌, ◌^◌, ◌||◌, ◌&&◌, Bool, not, List, [], ◌∷◌, none, some, ◌==◌, if◌then◌else◌, ℤ, success,
}
use os_lamina_atrium.Words.{u32}
use os_lamina_atrium.Queue.{null}
use os_lamina_atrium.Mm.{M, Malloc}
use os_lamina_atrium.Sched.{Level, Sched}
use os_lamina_atrium.Syscall.{ScRegs, find_proc_in_queue, sys_memmap}

-- What a call sees of `struct krnl_t`: the queues, and two fields of the processes, also of freed ones.
pub record Kernel : Type 0 where
  pub sched : Sched
  pub pid_of : ℕ → ℕ
  pub prio_of : ℕ → ℕ

-- The search of `__sys_memmap` in the running list and then in the ready queue finds the process.
-- The list may hold processes that are freed: reading one is no fault here, and `pid_of` is any
-- number for it.
unfoldable pub is_listed : Kernel → ℕ → Bool
unfolding find_proc_in_queue
is_listed k pid =
    k.sched.linked
    && (not (find_proc_in_queue k.pid_of k.sched.running_list pid == null)
        || not (find_proc_in_queue k.pid_of k.sched.ready_queue pid == null))

-- The loop of `__sys_getprocinfo` over the levels.
unfoldable pub find_in_levels : (ℕ → ℕ) → List Level → ℕ → ℕ
unfolding find_proc_in_queue
find_in_levels pid_of [] pid = null
find_in_levels pid_of (l ∷ ls) pid =
    let next = find_in_levels pid_of ls pid in
    let proc = find_proc_in_queue pid_of l.queue pid in if proc == null then next else proc

-- The process that `__sys_getprocinfo` finds: it is sought in the ready queue, then in the running
-- list, then in the levels.
unfoldable pub find_proc : Kernel → ℕ → ℕ
unfolding find_proc_in_queue find_in_levels
find_proc k pid =
    let ready = find_proc_in_queue k.pid_of k.sched.ready_queue pid in
    let running = find_proc_in_queue k.pid_of k.sched.running_list pid in
    let levels = find_in_levels k.pid_of k.sched.levels pid in
    if not k.sched.linked
    then null
    else if not (ready == null)
    then ready
    else if not (running == null)
    then running
    else levels

unfoldable pub sys_getprocinfo : Kernel → ScRegs → ScRegs
unfolding find_proc
sys_getprocinfo k regs =
    let proc = find_proc k (u32 regs.a1) in
    record regs { a1 = if proc == null then 2 ^ 32 - 1 else k.prio_of proc }

-- A number that is not in the table is `__sys_ni_syscall`, which does nothing.
unfoldable pub syscall : Malloc → (node : Bool) → Kernel → (pid nr : ℕ) → ScRegs → M (ℤ × ScRegs)
unfolding sys_memmap sys_getprocinfo is_listed
syscall malloc node k pid nr regs c =
    if nr == 0
    then some ((success, regs), c)
    else if nr == 17
    then sys_memmap malloc node (is_listed k pid) regs c
    else if nr == 441
    then some ((success, sys_getprocinfo k regs), c)
    else some ((success, regs), c)

-- The registers are local: only the result comes back.
unfoldable pub libsyscall : Malloc → (node : Bool) → Kernel → (pid syscall_idx a1 a2 a3 : ℕ) → M ℤ
unfolding syscall
libsyscall malloc node k pid syscall_idx a1 a2 a3 c =
    elim (syscall malloc node k pid syscall_idx (record { a1 = a1; a2 = a2; a3 = a3 }) c) [
      | none ↦ none
      | some ((result, _), c') ↦ some (result, c')
    ]
