-- ===== src/Sched/Conserve.antt =====
-- How often a process is in the queues of src/sched.c, before and after a call.
use os_lamina_atrium.Base.{
  ℕ, zero, suc, ◌+◌, ◌<◌, ◌≡◌, inl, inr, Bool, false, List, [], ◌∷◌, some, leb, if◌then◌else◌,
  arith, length, one_if, count, Option-cases,
}
use os_lamina_atrium.Queue.{max_queue_size, dequeue}
use os_lamina_atrium.Queue.Refine.{
  IsProc, contents, enqueue_refines, dequeue_refines, purgequeue_refines,
}
use os_lamina_atrium.Queue.Count.{count-push, count-pop, count-remove, remove_found}
use os_lamina_atrium.Sched.{Level, Sched, scan, get_mlq_proc, enqueue_at, put_mlq_proc}
use os_lamina_atrium.Sched.Inv.{AreLevels, IsValid}

abbrev pub ready_count : ℕ → List Level → ℕ
ready_count a [] = 0
ready_count a (l ∷ ls) = count a (contents l.queue) + ready_count a ls

-- How often the process `a` is in the ready queues and the running list together.
abbrev pub total : ℕ → Sched → ℕ
total a s = ready_count a s.levels + count a (contents s.running_list)

abbrev pub is_full : List ℕ → Bool
is_full xs = leb max_queue_size (length xs)

-- Whether the ready queue of that priority is full.
abbrev pub level_full : ℕ → List Level → Bool
level_full prio [] = false
level_full zero (l ∷ ls) = is_full (contents l.queue)
level_full (suc prio) (l ∷ ls) = level_full prio ls

pub scan_count :
    (a prio : ℕ) (ls : List Level)
    → IsProc a
    → AreLevels prio ls
    → ready_count a (scan prio ls).1 + one_if a (scan prio ls).0 ≡ ready_count a ls
unfolding scan
scan_count a prio [] h v = ground arith
scan_count a prio (l ∷ ls) h v =
    let (same, _) = dequeue_refines l.queue v.0.queue_valid in
    let popped = count-pop a (contents l.queue) h in
    let here : count a (contents (dequeue l.queue).1) + one_if a (dequeue l.queue).0
        ≡ count a (contents l.queue) =
      rw (← same) at popped in
    ground (arith, scan_count a (prio + 1) ls h v.1)

-- `get_mlq_proc` only moves the process that it returns to the running list: every process is as
-- often in the queues as before. If the running list is full, the one returned is in them one time
-- less.
pub get_mlq_proc_conserves :
    (s : Sched) (a : ℕ)
    → IsValid s
    → IsProc a
    → let (p, s') = get_mlq_proc s in
      total a s' + (if is_full (contents s.running_list) then one_if a p else 0) ≡ total a s
unfolding get_mlq_proc
get_mlq_proc_conserves s a v h = ground (
  arith,
  scan_count a 0 s.levels h v.levels_valid,
  enqueue_refines s.running_list (scan 0 s.levels).0 v.running_valid,
  count-push max_queue_size a (scan 0 s.levels).0 (contents s.running_list) h,
)

pub enqueue_at_count :
    (n a proc prio : ℕ) (ls ls' : List Level)
    → IsProc a
    → AreLevels n ls
    → enqueue_at prio proc ls ≡ some ls'
    → ready_count a ls' + (if level_full prio ls then one_if a proc else 0)
      ≡ ready_count a ls + one_if a proc
unfolding enqueue_at
enqueue_at_count n a proc prio [] ls' h v e = cc
enqueue_at_count n a proc zero (l ∷ ls) ls' h v e = ground (
  arith,
  enqueue_refines l.queue proc v.0.queue_valid,
  count-push max_queue_size a proc (contents l.queue) h,
)
enqueue_at_count n a proc (suc prio) (l ∷ ls) ls' h v e =
    elim (Option-cases (enqueue_at prio proc ls)) [
      | inl none_left ↦ ground arith
      | inr (rest, found) ↦ ground (arith, enqueue_at_count (n + 1) a proc prio ls rest h v.1 found)
    ]

-- `put_mlq_proc` of a running process moves it from the running list to the ready queue of its
-- priority: every process is as often in the queues as before. If that queue is full, the process
-- put is in them one time less.
pub put_mlq_proc_conserves :
    (s s' : Sched) (a proc prio : ℕ)
    → IsValid s
    → IsProc a
    → IsProc proc
    → 0 < count proc (contents s.running_list)
    → put_mlq_proc s proc prio ≡ some s'
    → total a s' + (if level_full prio s.levels then one_if a proc else 0) ≡ total a s
unfolding put_mlq_proc
put_mlq_proc_conserves s s' a proc prio v h hp running e =
    elim (Option-cases (enqueue_at prio proc s.levels)) [
      | inl none_left ↦ ground arith
      | inr (rest, found) ↦ ground (
        arith,
        enqueue_at_count 0 a proc prio s.levels rest h v.levels_valid found,
        purgequeue_refines s.running_list proc v.running_valid hp,
        count-remove a proc (contents s.running_list) h,
        remove_found proc (contents s.running_list) running,
      )
    ]
