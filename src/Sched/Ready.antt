-- ===== src/Sched/Ready.antt =====
-- How many processes are ready in the queues of src/sched.c, before and after a call.
use os_lamina_atrium.Base.{
  ℕ, zero, suc, ◌+◌, ◌≤◌, ◌≡◌, inl, inr, true, List, [], ◌∷◌, some, ◌==◌, if◌then◌else◌, arith,
  length, Option-cases, length-append,
}
use os_lamina_atrium.Queue.{null, max_queue_size, dequeue}
use os_lamina_atrium.Queue.Fifo
use os_lamina_atrium.Queue.Refine.{contents, enqueue_refines, dequeue_refines}
use os_lamina_atrium.Sched.{Level, scan, enqueue_at}
use os_lamina_atrium.Sched.Inv.{AreLevels}
use os_lamina_atrium.Sched.Conserve.{level_full}

abbrev pub ready_length : List Level → ℕ
ready_length [] = 0
ready_length (l ∷ ls) = length (contents l.queue) + ready_length ls

-- 1 for a process, 0 for NULL
abbrev pub one_unless_null : ℕ → ℕ
one_unless_null p = if p == null then 0 else 1

length-pop : (xs : List ℕ) → length (Fifo.pop xs).1 + one_unless_null (Fifo.pop xs).0 ≤ length xs
unfolding Fifo.pop
length-pop [] = ground arith
length-pop (x ∷ xs) = ground arith

pub ready_length-scan :
    (prio : ℕ) (ls : List Level)
    → AreLevels prio ls
    → ready_length (scan prio ls).1 + one_unless_null (scan prio ls).0 ≤ ready_length ls
unfolding scan
ready_length-scan prio [] v = ground arith
ready_length-scan prio (l ∷ ls) v =
    let (same, _) = dequeue_refines l.queue v.0.queue_valid in
    let popped = length-pop (contents l.queue) in
    let here : length (contents (dequeue l.queue).1) + one_unless_null (dequeue l.queue).0
        ≤ length (contents l.queue) =
      rw (← same) at popped in
    ground (arith, ready_length-scan (prio + 1) ls v.1)

pub length-push : (cap p : ℕ) (xs : List ℕ) → length (Fifo.push cap xs p) ≤ length xs + 1
unfolding Fifo.push
length-push cap p xs = ground (arith, length-append xs (p ∷ []))

pub ready_length-enqueue_at :
    (n proc prio : ℕ) (ls ls' : List Level)
    → AreLevels n ls
    → enqueue_at prio proc ls ≡ some ls'
    → ready_length ls' ≤ ready_length ls + 1
unfolding enqueue_at
ready_length-enqueue_at n proc prio [] ls' v e = cc
ready_length-enqueue_at n proc zero (l ∷ ls) ls' v e = ground (
  arith,
  enqueue_refines l.queue proc v.0.queue_valid,
  length-push max_queue_size proc (contents l.queue),
)
ready_length-enqueue_at n proc (suc prio) (l ∷ ls) ls' v e =
    elim (Option-cases (enqueue_at prio proc ls)) [
      | inl none_left ↦ ground arith
      | inr (rest, found) ↦
          ground (arith, ready_length-enqueue_at (n + 1) proc prio ls rest v.1 found)
    ]

-- A full level holds as many processes as a queue can.
pub level_full_lem :
    (prio : ℕ) (ls : List Level) → level_full prio ls ≡ true → max_queue_size ≤ ready_length ls
level_full_lem prio [] e = cc
level_full_lem zero (l ∷ ls) e = ground arith
level_full_lem (suc prio) (l ∷ ls) e = omega (arith, level_full_lem prio ls e)
