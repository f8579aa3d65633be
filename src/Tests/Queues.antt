-- ===== src/Tests/Queues.antt =====
-- A queue with two processes, and a scheduler.
use os_lamina_atrium.Sched.Plain.{run_plain, added, run_plain-added}
use os_lamina_atrium.Base.{
  ℕ, ◌+◌, ◌*◌, ◌<◌, ◌≡◌, ◌≢◌, refl, List, [], ◌∷◌, some, if◌then◌else◌, arith, replicate, one_if,
  failure, true, false, count, ◌≤◌,
}
use os_lamina_atrium.Queue.{
  ProcQueue, max_queue_size, null, fresh, empty, enqueue, dequeue, purgequeue,
}
use os_lamina_atrium.Queue.Fifo
use os_lamina_atrium.Queue.Fifo.{Op, put, take_oldest, withdraw}
use os_lamina_atrium.Queue.Refine
use os_lamina_atrium.Queue.Refine.{contents, fresh-IsValid, run_refines}
use os_lamina_atrium.Syscall.{ScRegs, find_proc_in_queue}
use os_lamina_atrium.Syscall.Table.{Kernel}
use os_lamina_atrium.Syscall.Find.{first_with, find_proc_in_queue_lem}
use os_lamina_atrium.Sched.{
  Level, Sched, zeroed, init_scheduler, init_levels, get_mlq_proc, put_mlq_proc, queue_empty, scan,
  enqueue_at,
}
use os_lamina_atrium.Sched.Calls.{Call, run}
use os_lamina_atrium.Sched.Inv.{IsValid, zeroed-IsValid, init_scheduler-IsValid, run-init-IsValid}
use os_lamina_atrium.Sched.Select.{Outcome, get_mlq_proc-Outcome, get_mlq_proc_twice}
use os_lamina_atrium.Sched.Conserve.{
  total, is_full, level_full, get_mlq_proc_conserves, put_mlq_proc_conserves,
}

abbrev two : ProcQueue
two = record { proc = 7 ∷ 9 ∷ replicate 48 0; size = 2 }

two-IsValid : Refine.IsValid two
two-IsValid = record { array = refl; fits = omega arith; present = omega arith }

abbrev calls : List Op
calls = put 4 ∷ withdraw 9 ∷ take_oldest ∷ []

run_refines_example :
    let (out, last) = Refine.run two calls in
    ((out, contents last) ≡ Fifo.run max_queue_size (contents two) calls) × Refine.IsValid last
run_refines_example = run_refines calls two two-IsValid (omega arith)

-- The levels of a scheduler just started, but for the first one.
abbrev lower_levels : List Level
lower_levels = init_levels 1 (replicate 139 (record { queue = fresh; slot = 0 }))

-- The scheduler with two processes of the highest priority, whose budget is `slot`.
abbrev loaded : ℕ → Sched
loaded slot = record {
  levels = record { queue = two; slot = slot } ∷ lower_levels;
  ready_queue = fresh;
  run_queue = fresh;
  running_list = two;
  linked = false;
}

started : IsValid (init_scheduler zeroed)
started = init_scheduler-IsValid zeroed zeroed-IsValid

loaded-IsValid : (slot : ℕ) → slot < 141 → IsValid (loaded slot)
unfolding init_scheduler zeroed
loaded-IsValid slot h = record {
  levels_valid =
      (record { queue_valid = two-IsValid; budget = omega arith }, started.levels_valid.1);
  all_levels = started.all_levels;
  ready_valid = fresh-IsValid;
  run_valid = fresh-IsValid;
  running_valid = two-IsValid;
}

get_mlq_proc-Outcome_example :
    let (p, s') = get_mlq_proc (loaded 140) in
    Outcome 0 (loaded 140).levels s'.levels p
    × (contents s'.running_list ≡ Fifo.push max_queue_size (contents two) p)
get_mlq_proc-Outcome_example = get_mlq_proc-Outcome (loaded 140) (loaded-IsValid 140 (omega arith))

some_ready : queue_empty (loaded 0) ≡ failure
unfolding queue_empty empty
some_ready = refl

none_chosen : (get_mlq_proc (loaded 0)).0 ≡ null
unfolding get_mlq_proc scan empty init_levels
none_chosen = refl

get_mlq_proc_twice_example : (get_mlq_proc (get_mlq_proc (loaded 0)).1).0 ≢ null
get_mlq_proc_twice_example =
    get_mlq_proc_twice (loaded 0) (loaded-IsValid 0 (omega arith)) some_ready none_chosen

get_mlq_proc_conserves_example :
    let (p, s') = get_mlq_proc (loaded 140) in
    total 7 s' + (if is_full (contents two) then one_if 7 p else 0) ≡ total 7 (loaded 140)
get_mlq_proc_conserves_example =
    get_mlq_proc_conserves (loaded 140) 7 (loaded-IsValid 140 (omega arith)) (omega arith)

abbrev put_back : Sched
put_back = record (loaded 140) {
  levels = record { queue = enqueue two 9; slot = 140 } ∷ lower_levels;
  running_list = (purgequeue two 9).1;
  linked = true;
}

put_back_result : put_mlq_proc (loaded 140) 9 0 ≡ some put_back
unfolding put_mlq_proc enqueue_at
put_back_result = refl

put_mlq_proc_conserves_example :
    total 7 put_back + (if level_full 0 (loaded 140).levels then one_if 7 9 else 0)
    ≡ total 7 (loaded 140)
put_mlq_proc_conserves_example =
    put_mlq_proc_conserves (loaded 140) put_back 7 9 0 (loaded-IsValid 140 (omega arith))
      (omega arith) (omega arith) (omega arith) put_back_result

abbrev cpu_calls : List Call
cpu_calls = Call.add 7 3 ∷ Call.get ∷ Call.put 7 3 ∷ []

run-init-IsValid_example :
    (s : Sched) × (run (init_scheduler zeroed) cpu_calls ≡ some s) × IsValid s
run-init-IsValid_example = run-init-IsValid cpu_calls (omega arith)

abbrev pid_of : ℕ → ℕ
pid_of proc = proc + 100

find_proc_in_queue_lem_example :
    find_proc_in_queue pid_of two 109 ≡ first_with pid_of 109 (contents two)
find_proc_in_queue_lem_example = find_proc_in_queue_lem pid_of two 109 two-IsValid

-- Two processes of the highest priority, which are also in the running list.
abbrev two_in_kernel : Kernel
two_in_kernel = record {
  sched = record (loaded 140) { linked = true };
  pid_of = λ p. p + 100;
  prio_of = λ p. p * 2;
}

two_in_kernel-IsValid : IsValid two_in_kernel.sched
two_in_kernel-IsValid =
    let v = loaded-IsValid 140 (omega arith) in
    record {
      levels_valid = v.levels_valid;
      all_levels = v.all_levels;
      ready_valid = v.ready_valid;
      run_valid = v.run_valid;
      running_valid = v.running_valid;
    }

abbrev asked : ScRegs
asked = record { a1 = 109; a2 = 0; a3 = 0 }

-- A process is added, taken, put back, and asked for again.
abbrev plain_calls : List Call
plain_calls = Call.add 5 0 ∷ Call.get ∷ Call.put 5 0 ∷ Call.get ∷ []

put_back_is_lost : (run_plain zeroed plain_calls).0 ≡ 0 ∷ 5 ∷ 0 ∷ 0 ∷ []
unfolding run_plain zeroed fresh empty enqueue dequeue purgequeue
put_back_is_lost = refl

zeroed_ready : Refine.IsValid zeroed.ready_queue
zeroed_ready = let valid = zeroed-IsValid in valid.ready_valid

run_plain-added_example :
    let (ps, last) = run_plain zeroed plain_calls in
    count 5 ps + count 5 (contents last.ready_queue)
    ≤ count 5 (contents zeroed.ready_queue) + added 5 plain_calls
run_plain-added_example = run_plain-added plain_calls zeroed 5 zeroed_ready (omega arith)
