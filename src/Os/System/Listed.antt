-- ===== src/Os/System/Listed.antt =====
-- src/os.c and src/sched.c: what one call of the scheduler changes of the running list, next to the
-- processes that CPUs have at hand.
use os_lamina_atrium.Base.{
  ℕ, ◌+◌, ◌≤◌, ◌<◌, ◌≡◌, ◌≢◌, inl, inr, true, List, [], ◌∷◌, some, ◌==◌, arith, length, one_if,
  count, Bool-cases, Option-cases,
}
use os_lamina_atrium.Queue.{null, max_queue_size}
use os_lamina_atrium.Queue.Fifo
use os_lamina_atrium.Queue.Refine.{IsProc, contents, enqueue_refines, purgequeue_refines}
use os_lamina_atrium.Queue.Count.{count-push, count-remove, remove_found}
use os_lamina_atrium.Sched.{Sched, scan, get_proc, get_mlq_proc, put_proc, put_mlq_proc, enqueue_at}
use os_lamina_atrium.Sched.Ready.{
  ready_length, ready_length-scan, ready_length-enqueue_at, length-push,
}
use os_lamina_atrium.Os.{World, Cpu, next_proc}
use os_lamina_atrium.Os.System.Account.{Sound}

abbrev pub running : World → List ℕ
running w = contents w.sched.running_list

abbrev pub listed_or_ready : World → ℕ
listed_or_ready w = length (running w) + ready_length w.sched.levels

-- A thread had `before a` of each process and has `after a`; the loader has loaded `k` more. A process
-- that is at hand more often than before is listed more often.
pub record Listing (w : World) (before : ℕ → ℕ) (w' : World) (after : ℕ → ℕ) (k : ℕ) : Type 0 where
  pub room : listed_or_ready w' ≤ listed_or_ready w + k
  pub listed : (a : ℕ) → IsProc a → after a + count a (running w) ≤ before a + count a (running w')
  pub linked : w.sched.linked ≡ true → w'.sched.linked ≡ true
  pub links : 0 < k → w'.sched.linked ≡ true

-- `get_proc` by a CPU that has no process, where the running list has room
pub next_proc-Listing :
    (w : World) (cpu : Cpu)
    → Sound w
    → listed_or_ready w ≤ max_queue_size
    → let (w', cpu') = next_proc w cpu in Listing w (λ a. 0) w' (λ a. one_if a cpu'.proc) 0
unfolding next_proc get_proc get_mlq_proc
next_proc-Listing w cpu s small =
    let p : ℕ = (scan 0 w.sched.levels).0 in
    let (same, _) = enqueue_refines w.sched.running_list p s.sched_valid.running_valid in
    let fewer = ready_length-scan 0 w.sched.levels s.sched_valid.levels_valid in
    let longer = length-push max_queue_size p (running w) in
    elim (Bool-cases (p == null)) [
      | inl absent ↦ record {
        room = ground (arith, fewer, absent);
        listed = λ a h. ground (arith, absent, h);
        linked = λ e. e;
        links = λ h. absurd (omega (arith, h));
      }
      | inr present ↦ record {
        room = ground (arith, same, fewer, longer, present);
        listed = λ a h.
            ground
              (arith, same, count-push max_queue_size a p (running w) h, fewer, present, small);
        linked = λ e. e;
        links = λ h. absurd (omega (arith, h));
      }
    ]

remove_one : (p : ℕ) (xs : List ℕ) → 0 < count p xs → length (Fifo.remove p xs).1 + 1 ≡ length xs
unfolding Fifo.remove
remove_one p [] h = absurd (omega (arith, h))
remove_one p (x ∷ xs) h = ground (arith, remove_one p xs)

-- `put_proc` by the CPU that has the process, which is listed
pub put_proc-Listing :
    (w : World) (p prio : ℕ) (sched : Sched)
    → Sound w
    → p ≢ null
    → 0 < count p (running w)
    → put_proc w.sched p prio ≡ some sched
    → Listing w (λ a. one_if a p) (record w { sched = sched }) (λ a. 0) 0
unfolding put_proc put_mlq_proc
put_proc-Listing w p prio sched s h found e =
    elim (Option-cases (enqueue_at prio p w.sched.levels)) [
      | inl none_left ↦ absurd (ground (arith, none_left, e))
      | inr (rest, e') ↦
          let (same, _) = purgequeue_refines w.sched.running_list p s.sched_valid.running_valid h in
          let longer =
            ready_length-enqueue_at 0 p prio w.sched.levels rest s.sched_valid.levels_valid e' in
          record {
            room = ground (arith, e, e', same, longer, remove_one p (running w) found);
            listed = λ a h'. ground (
              arith,
              e,
              e',
              same,
              count-remove a p (running w) h',
              remove_found p (running w) found,
            );
            linked = λ t. ground (arith, e, e');
            links = λ t. absurd (omega (arith, t));
          }
    ]
