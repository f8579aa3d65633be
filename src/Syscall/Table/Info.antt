-- ===== src/Syscall/Table/Info.antt =====
-- `__sys_getprocinfo` on the contents of the kernel's queues.
use os_lamina_atrium.Base.{
  ℕ, ◌+◌, ◌-◌, ◌^◌, ◌≡◌, refl, sym, ap, inl, inr, true, false, List, [], ◌∷◌, ◌++◌, ◌==◌,
  if◌then◌else◌, arith, All, Bool-cases,
}
use os_lamina_atrium.Words.{u32}
use os_lamina_atrium.Queue.{null}
use os_lamina_atrium.Queue.Refine.{IsProc, contents}
use os_lamina_atrium.Sched.{Level, Sched}
use os_lamina_atrium.Sched.Inv.{AreLevels, IsValid}
use os_lamina_atrium.Syscall.{ScRegs}
use os_lamina_atrium.Syscall.Find.{first_with, find_proc_in_queue_lem}
use os_lamina_atrium.Syscall.Table.{Kernel, find_in_levels, find_proc, sys_getprocinfo}

-- The processes of the levels, the highest priority first.
abbrev pub in_levels : List Level → List ℕ
in_levels [] = []
in_levels (l ∷ ls) = contents l.queue ++ in_levels ls

-- All processes that the kernel knows, in the order in which they are looked up.
abbrev pub in_kernel : Sched → List ℕ
in_kernel s = contents s.ready_queue ++ (contents s.running_list ++ in_levels s.levels)

-- Of two lists the second counts where the first has no such process.
first_with-append :
    (pid_of : ℕ → ℕ) (pid : ℕ) (xs ys : List ℕ)
    → All IsProc xs
    → first_with pid_of pid (xs ++ ys) ≡ (
        if first_with pid_of pid xs == null
        then first_with pid_of pid ys
        else first_with pid_of pid xs)
first_with-append pid_of pid [] ys h = refl
first_with-append pid_of pid (x ∷ xs) ys (here, h) = elim (Bool-cases (pid_of x == pid)) [
  | inl e ↦ let present : (x == null) ≡ false = ground arith in rw (e, present) refl
  | inr e ↦ rw e (first_with-append pid_of pid xs ys h)
]

find_in_levels_lem :
    (pid_of : ℕ → ℕ) (pid prio : ℕ) (ls : List Level)
    → AreLevels prio ls
    → find_in_levels pid_of ls pid ≡ first_with pid_of pid (in_levels ls)
unfolding find_in_levels
find_in_levels_lem pid_of pid prio [] v = refl
find_in_levels_lem pid_of pid prio (l ∷ ls) (here, v) =
    rw
      (
        find_proc_in_queue_lem pid_of l.queue pid here.queue_valid,
        find_in_levels_lem pid_of pid (prio + 1) ls v,
      )
      (sym
        (first_with-append pid_of pid (contents l.queue) (in_levels ls) here.queue_valid.present))

find_proc_lem :
    (k : Kernel) (pid : ℕ)
    → IsValid k.sched
    → k.sched.linked ≡ true
    → find_proc k pid ≡ first_with k.pid_of pid (in_kernel k.sched)
unfolding find_proc
find_proc_lem k pid v linked =
    let tail =
      first_with-append k.pid_of pid (contents k.sched.running_list) (in_levels k.sched.levels)
        v.running_valid.present in
    let all =
      first_with-append k.pid_of pid (contents k.sched.ready_queue)
        (contents k.sched.running_list ++ in_levels k.sched.levels) v.ready_valid.present in
    rw
      (
        find_proc_in_queue_lem k.pid_of k.sched.ready_queue pid v.ready_valid,
        find_proc_in_queue_lem k.pid_of k.sched.running_list pid v.running_valid,
        find_in_levels_lem k.pid_of pid 0 k.sched.levels v.levels_valid,
        linked,
        all,
        tail,
      )
      (ground arith)

-- In a valid state whose queues have been linked to the kernel, `__sys_getprocinfo` answers with the
-- priority of the first process with the number asked for, among those that are ready, then
-- those that run, then those of the levels, the highest priority first; and with 2 ^ 32 - 1 if there
-- is none.
pub sys_getprocinfo_lem :
    (k : Kernel) (regs : ScRegs)
    → IsValid k.sched
    → k.sched.linked ≡ true
    → let proc = first_with k.pid_of (u32 regs.a1) (in_kernel k.sched) in
      sys_getprocinfo k regs
      ≡ record regs { a1 = if proc == null then 2 ^ 32 - 1 else k.prio_of proc }
unfolding sys_getprocinfo
sys_getprocinfo_lem k regs v linked =
    ap (λ (proc : ℕ). record regs { a1 = if proc == null then 2 ^ 32 - 1 else k.prio_of proc })
      (find_proc_lem k (u32 regs.a1) v linked)
