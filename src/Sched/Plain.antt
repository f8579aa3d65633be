-- ===== src/Sched/Plain.antt =====
-- src/sched.c without `MLQ_SCHED`: one ready queue, first in first out.
use os_lamina_atrium.Base.{
  ℕ, ◌+◌, ◌≤◌, ◌≡◌, inl, inr, true, List, [], ◌∷◌, ◌==◌, if◌then◌else◌, arith, one_if, count,
  Bool-cases,
}
use os_lamina_atrium.Queue.{null, max_queue_size, empty, enqueue, dequeue, purgequeue}
use os_lamina_atrium.Queue.Refine.{IsProc, IsValid, contents, enqueue_refines, dequeue_refines}
use os_lamina_atrium.Queue.Count.{count-push, count-pop}
use os_lamina_atrium.Sched.{Sched}
use os_lamina_atrium.Sched.Calls.{Call, get, put, add}

-- `get_proc`
unfoldable pub get_plain_proc : Sched → ℕ × Sched
get_plain_proc s =
    let (proc, ready) =
      if empty s.ready_queue then (null, s.ready_queue) else dequeue s.ready_queue in
    (
      proc,
      record s {
        ready_queue = ready;
        running_list = if proc == null then s.running_list else enqueue s.running_list proc;
      },
    )

-- `put_proc`
unfoldable pub put_plain_proc : Sched → ℕ → Sched
put_plain_proc s proc = record s {
  running_list = (purgequeue s.running_list proc).1;
  run_queue = enqueue s.run_queue proc;
  linked = true;
}

-- `add_proc`
unfoldable pub add_plain_proc : Sched → ℕ → Sched
add_plain_proc s proc = record s { ready_queue = enqueue s.ready_queue proc; linked = true }

-- A call, with the process that it returns, NULL if it returns none
unfoldable pub step_plain : Sched → Call → ℕ × Sched
unfolding get_plain_proc put_plain_proc add_plain_proc
step_plain s get = get_plain_proc s
step_plain s (put proc prio) = (null, put_plain_proc s proc)
step_plain s (add proc prio) = (null, add_plain_proc s proc)

-- The processes that a sequence of calls returns, and the state after it
unfoldable pub run_plain : Sched → List Call → List ℕ × Sched
unfolding step_plain
run_plain s [] = ([], s)
run_plain s (c ∷ cs) =
    let (p, s') = step_plain s c in let (ps, last) = run_plain s' cs in (p ∷ ps, last)

-- How often the process is added
abbrev pub added : ℕ → List Call → ℕ
added a [] = 0
added a (get ∷ cs) = added a cs
added a (put proc prio ∷ cs) = added a cs
added a (add proc prio ∷ cs) = one_if a proc + added a cs

get_plain_count :
    (s : Sched) (a : ℕ)
    → IsValid s.ready_queue
    → IsProc a
    → IsValid (get_plain_proc s).1.ready_queue
      × (one_if a (get_plain_proc s).0 + count a (contents (get_plain_proc s).1.ready_queue)
          ≤ count a (contents s.ready_queue))
unfolding get_plain_proc
get_plain_count s a v h = elim (Bool-cases (empty s.ready_queue)) [
  | inl none_there ↦ ground (arith, none_there, v, h)
  | inr some_there ↦
      ground
        (arith, some_there, dequeue_refines s.ready_queue v, count-pop a (contents s.ready_queue) h)
]

put_plain-ready :
    (s : Sched) (proc : ℕ)
    → IsValid s.ready_queue
    → ((a : ℕ)
        → count a (contents (put_plain_proc s proc).ready_queue) ≡ count a (contents s.ready_queue))
      × IsValid (put_plain_proc s proc).ready_queue
unfolding put_plain_proc
put_plain-ready s proc v = (λ a. omega arith, v)

add_plain-ready :
    (s : Sched) (proc : ℕ)
    → IsValid s.ready_queue
    → ((a : ℕ)
        → IsProc a
        → count a (contents (add_plain_proc s proc).ready_queue)
          ≤ count a (contents s.ready_queue) + one_if a proc)
      × IsValid (add_plain_proc s proc).ready_queue
unfolding add_plain_proc
add_plain-ready s proc v =
    let (same, v') = enqueue_refines s.ready_queue proc v in
    (λ a h. ground (arith, same, count-push max_queue_size a proc (contents s.ready_queue) h), v')

null_is_none : (a : ℕ) → IsProc a → one_if a null ≡ 0
null_is_none a h = ground (arith, h)

-- Without `MLQ_SCHED` a process is returned no more often than it was ready at the start and added
-- since, however often it is put back: `put_proc` puts it where no call takes it from.
pub run_plain-added :
    (cs : List Call) (s : Sched) (a : ℕ)
    → IsValid s.ready_queue
    → IsProc a
    → let (ps, last) = run_plain s cs in
      count a ps + count a (contents last.ready_queue)
      ≤ count a (contents s.ready_queue) + added a cs
unfolding run_plain step_plain
run_plain-added [] s a v h = omega arith
run_plain-added (get ∷ cs) s a v h =
    let (v', here) = get_plain_count s a v h in
    omega (arith, here, run_plain-added cs (get_plain_proc s).1 a v' h)
run_plain-added (put proc prio ∷ cs) s a v h =
    let ih = run_plain-added cs (put_plain_proc s proc) a (put_plain-ready s proc v).1 h in
    omega (arith, ih, (put_plain-ready s proc v).0 a, null_is_none a h)
run_plain-added (add proc prio ∷ cs) s a v h =
    let (here, v') = add_plain-ready s proc v in
    let ih = run_plain-added cs (add_plain_proc s proc) a v' h in
    omega (arith, ih, here a h, null_is_none a h)
