-- ===== src/Sched/Inv.antt =====
-- The invariant of the scheduler's state.
use os_lamina_atrium.Base.{
  ℕ, zero, suc, ◌+◌, ◌-◌, ◌≤◌, ◌<◌, ◌≡◌, refl, ◌∙◌, inl, inr, true, List, [], ◌∷◌, some, arith,
  length, replicate, length-replicate, All, Option-cases,
}
use os_lamina_atrium.Queue.{fresh, purgequeue}
use os_lamina_atrium.Queue.Refine.{
  IsProc, fresh-IsValid, enqueue_refines, dequeue_refines, purgequeue_refines,
}
use os_lamina_atrium.Queue.Refine
use os_lamina_atrium.Sched.Calls.{Call, get, put, add, step, run}
use os_lamina_atrium.Sched.{
  Level, Sched, max_prio, zeroed, init_levels, init_scheduler, scan, get_mlq_proc, enqueue_at,
  put_mlq_proc, add_mlq_proc,
}

-- A level's queue is valid, and its budget is at most that of its priority.
pub record IsLevel (prio : ℕ) (l : Level) : Type 0 where
  pub queue_valid : Refine.IsValid l.queue
  pub budget : l.slot ≤ max_prio - prio

abbrev pub AreLevels : ℕ → List Level → Type 0
AreLevels prio [] = Unit
AreLevels prio (l ∷ ls) = IsLevel prio l × AreLevels (prio + 1) ls

pub record IsValid (s : Sched) : Type 0 where
  pub levels_valid : AreLevels 0 s.levels
  pub all_levels : length s.levels ≡ max_prio
  pub ready_valid : Refine.IsValid s.ready_queue
  pub run_valid : Refine.IsValid s.run_queue
  pub running_valid : Refine.IsValid s.running_list

scan-AreLevels : (prio : ℕ) (ls : List Level) → AreLevels prio ls → AreLevels prio (scan prio ls).1
unfolding scan
scan-AreLevels prio [] v = tt
scan-AreLevels prio (l ∷ ls) v =
    ground (arith, scan-AreLevels (prio + 1) ls v.1, dequeue_refines l.queue v.0.queue_valid)

length-scan : (prio : ℕ) (ls : List Level) → length (scan prio ls).1 ≡ length ls
unfolding scan
length-scan prio [] = refl
length-scan prio (l ∷ ls) = ground (arith, length-scan (prio + 1) ls)

-- `get_mlq_proc` keeps the state valid.
pub get_mlq_proc-IsValid : (s : Sched) → IsValid s → IsValid (get_mlq_proc s).1
unfolding get_mlq_proc
get_mlq_proc-IsValid s v = record {
  levels_valid = scan-AreLevels 0 s.levels v.levels_valid;
  all_levels = length-scan 0 s.levels ∙ v.all_levels;
  ready_valid = v.ready_valid;
  run_valid = v.run_valid;
  running_valid =
      ground (arith, enqueue_refines s.running_list (scan 0 s.levels).0 v.running_valid);
}

enqueue_at-AreLevels :
    (n prio proc : ℕ) (ls ls' : List Level)
    → enqueue_at prio proc ls ≡ some ls'
    → AreLevels n ls
    → AreLevels n ls' × (length ls' ≡ length ls)
unfolding enqueue_at
enqueue_at-AreLevels n prio proc [] ls' e v = cc
enqueue_at-AreLevels n zero proc (l ∷ ls) ls' e v =
    ground (arith, enqueue_refines l.queue proc v.0.queue_valid)
enqueue_at-AreLevels n (suc prio) proc (l ∷ ls) ls' e v =
    elim (Option-cases (enqueue_at prio proc ls)) [
      | inl none_left ↦ ground arith
      | inr (rest, found) ↦ ground (arith, enqueue_at-AreLevels (n + 1) prio proc ls rest found v.1)
    ]

-- A priority below the number of levels is no fault.
pub enqueue_at_total :
    (prio proc : ℕ) (ls : List Level)
    → prio < length ls
    → (ls' : List Level) × (enqueue_at prio proc ls ≡ some ls')
unfolding enqueue_at
enqueue_at_total prio proc [] h = absurd (omega arith)
enqueue_at_total zero proc (l ∷ ls) h = (_, refl)
enqueue_at_total (suc prio) proc (l ∷ ls) h =
    let (rest, e) = enqueue_at_total prio proc ls (omega arith) in (l ∷ rest, rw e)

-- `add_mlq_proc` and `put_mlq_proc` of a process with a priority in range meet no fault and keep
-- the state valid.
pub add_mlq_proc-IsValid :
    (s : Sched) (proc prio : ℕ)
    → prio < max_prio
    → IsValid s
    → (s' : Sched) × (add_mlq_proc s proc prio ≡ some s') × IsValid s'
unfolding add_mlq_proc
add_mlq_proc-IsValid s proc prio h v =
    let (ls, e) = enqueue_at_total prio proc s.levels (omega (arith, v.all_levels)) in
    let (levels, same) = enqueue_at-AreLevels 0 prio proc s.levels ls e v.levels_valid in
    (
      record s { levels = ls; linked = true },
      rw e,
      record {
        levels_valid = levels;
        all_levels = same ∙ v.all_levels;
        ready_valid = v.ready_valid;
        run_valid = v.run_valid;
        running_valid = v.running_valid;
      },
    )

pub put_mlq_proc-IsValid :
    (s : Sched) (proc prio : ℕ)
    → prio < max_prio
    → IsProc proc
    → IsValid s
    → (s' : Sched) × (put_mlq_proc s proc prio ≡ some s') × IsValid s'
unfolding put_mlq_proc
put_mlq_proc-IsValid s proc prio h hp v =
    let (ls, e) = enqueue_at_total prio proc s.levels (omega (arith, v.all_levels)) in
    let (levels, same) = enqueue_at-AreLevels 0 prio proc s.levels ls e v.levels_valid in
    (
      record s { levels = ls; running_list = (purgequeue s.running_list proc).1; linked = true },
      rw e,
      record {
        levels_valid = levels;
        all_levels = same ∙ v.all_levels;
        ready_valid = v.ready_valid;
        run_valid = v.run_valid;
        running_valid = (purgequeue_refines s.running_list proc v.running_valid hp).1;
      },
    )

replicate-AreLevels :
    (n prio : ℕ) → AreLevels prio (replicate n (record { queue = fresh; slot = 0 }))
replicate-AreLevels zero prio = tt
replicate-AreLevels (suc n) prio =
    (record { queue_valid = fresh-IsValid; budget = omega arith }, replicate-AreLevels n (prio + 1))

pub zeroed-IsValid : IsValid zeroed
unfolding zeroed
zeroed-IsValid = record {
  levels_valid = replicate-AreLevels max_prio 0;
  all_levels = length-replicate {A = Level} max_prio (record { queue = fresh; slot = 0 });
  ready_valid = fresh-IsValid;
  run_valid = fresh-IsValid;
  running_valid = fresh-IsValid;
}

init_levels-AreLevels :
    (prio : ℕ) (ls : List Level)
    → AreLevels prio ls
    → AreLevels prio (init_levels prio ls) × (length (init_levels prio ls) ≡ length ls)
unfolding init_levels
init_levels-AreLevels prio [] v = (tt, refl)
init_levels-AreLevels prio (l ∷ ls) v = ground (arith, init_levels-AreLevels (prio + 1) ls v.1)

pub init_scheduler-IsValid : (s : Sched) → IsValid s → IsValid (init_scheduler s)
unfolding init_scheduler
init_scheduler-IsValid s v = ground (arith, init_levels-AreLevels 0 s.levels v.levels_valid)

abbrev pub InRange : Call → Type 0
InRange get = Unit
InRange (put proc prio) = (prio < max_prio) × IsProc proc
InRange (add proc prio) = (prio < max_prio) × IsProc proc

step-IsValid :
    (s : Sched) (c : Call)
    → InRange c
    → IsValid s
    → (s' : Sched) × (step s c ≡ some s') × IsValid s'
unfolding step
step-IsValid s get h v = ((get_mlq_proc s).1, refl, get_mlq_proc-IsValid s v)
step-IsValid s (put proc prio) h v = put_mlq_proc-IsValid s proc prio h.0 h.1 v
step-IsValid s (add proc prio) h v = add_mlq_proc-IsValid s proc prio h.0 v

run-IsValid :
    (cs : List Call) (s : Sched)
    → All InRange cs
    → IsValid s
    → (s' : Sched) × (run s cs ≡ some s') × IsValid s'
unfolding run
run-IsValid [] s h v = (s, refl, v)
run-IsValid (c ∷ cs) s h v =
    let (s', e, v') = step-IsValid s c h.0 v in
    let (last, e', v'') = run-IsValid cs s' h.1 v' in (last, rw (e, run) e', v'')

-- After `init_scheduler` on the static storage, every sequence of calls whose processes are not
-- NULL and have a priority below `MAX_PRIO` runs without a fault. At the end every queue is a valid
-- queue of at most `MAX_QUEUE_SIZE` processes, and no level has more than its budget.
pub run-init-IsValid :
    (cs : List Call)
    → All InRange cs
    → (s : Sched) × (run (init_scheduler zeroed) cs ≡ some s) × IsValid s
run-init-IsValid cs h =
    run-IsValid cs (init_scheduler zeroed) h (init_scheduler-IsValid zeroed zeroed-IsValid)
