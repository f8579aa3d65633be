-- ===== src/Sched.antt =====
-- src/sched.c, in the configuration of include/os-cfg.h (`MLQ_SCHED`): the multi-level queue
-- scheduler. Each function holds `queue_lock` from its first access to its last, so it is one step.
-- The arrays `mlq_ready_queue` and `slot` are always indexed together: they are one list of levels.
-- `prio` is the field of the process that is passed.
pub mod Calls
pub mod Inv
pub mod Select
pub mod Conserve
pub mod Ready
pub mod Plain
use mathlib.Core.Option
use os_lamina_atrium.Base.{
  ℕ, zero, suc, ◌+◌, ◌-◌, ◌&&◌, Bool, true, false, List, [], ◌∷◌, Option, none, some, ◌==◌, ltb,
  if◌then◌else◌, replicate, ℤ, pos, failure,
}
use os_lamina_atrium.Queue.{ProcQueue, null, fresh, empty, enqueue, dequeue, purgequeue}

abbrev pub max_prio : ℕ
max_prio = 140

-- `mlq_ready_queue[prio]` and `slot[prio]`
pub record Level : Type 0 where
  pub queue : ProcQueue
  pub slot : ℕ

-- The static variables. `linked` says that the queue pointers of `struct krnl_t` have been set.
pub record Sched : Type 0 where
  pub levels : List Level
  pub ready_queue : ProcQueue
  pub run_queue : ProcQueue
  pub running_list : ProcQueue
  pub linked : Bool

-- Static variables start as zeros.
unfoldable pub zeroed : Sched
zeroed = record {
  levels = replicate max_prio (record { queue = fresh; slot = 0 });
  ready_queue = fresh;
  run_queue = fresh;
  running_list = fresh;
  linked = false;
}

abbrev all_empty : List Level → Bool
all_empty [] = true
all_empty (l ∷ ls) = empty l.queue && all_empty ls

-- -1 if a level holds a process, otherwise whether the two other queues are empty
unfoldable pub queue_empty : Sched → ℤ
queue_empty s =
    if all_empty s.levels
    then if empty s.ready_queue && empty s.run_queue then pos 1 else pos 0
    else failure

abbrev cleared : ProcQueue → ProcQueue
cleared q = record q { size = 0 }

unfoldable pub init_levels : ℕ → List Level → List Level
init_levels prio [] = []
init_levels prio (l ∷ ls) =
    record { queue = cleared l.queue; slot = max_prio - prio } ∷ init_levels (prio + 1) ls

unfoldable pub init_scheduler : Sched → Sched
unfolding init_levels
init_scheduler s = record s {
  levels = init_levels 0 s.levels;
  ready_queue = cleared s.ready_queue;
  run_queue = cleared s.run_queue;
  running_list = cleared s.running_list;
}

-- The loop of `get_mlq_proc` from level `prio` on.
unfoldable pub scan : ℕ → List Level → ℕ × List Level
scan prio [] = (null, [])
scan prio (l ∷ ls) =
    let rest = scan (prio + 1) ls in
    if empty l.queue
    then (rest.0, l ∷ rest.1)
    else if ltb 0 l.slot
    then ((dequeue l.queue).0, record { queue = (dequeue l.queue).1; slot = l.slot - 1 } ∷ ls)
    else (rest.0, record l { slot = max_prio - prio } ∷ rest.1)

unfoldable pub get_mlq_proc : Sched → ℕ × Sched
get_mlq_proc s =
    let (proc, levels) = scan 0 s.levels in
    (
      proc,
      record s {
        levels = levels;
        running_list = if proc == null then s.running_list else enqueue s.running_list proc;
      },
    )

-- `enqueue(&mlq_ready_queue[prio], proc)`; an index past the array is a fault.
unfoldable pub enqueue_at : ℕ → ℕ → List Level → Option (List Level)
enqueue_at prio proc [] = none
enqueue_at zero proc (l ∷ ls) = some (record l { queue = enqueue l.queue proc } ∷ ls)
enqueue_at (suc prio) proc (l ∷ ls) = Option.map (λ ls'. l ∷ ls') (enqueue_at prio proc ls)

unfoldable pub put_mlq_proc : Sched → ℕ → ℕ → Option Sched
put_mlq_proc s proc prio =
    Option.map
      (λ levels. record s {
        levels = levels;
        running_list = (purgequeue s.running_list proc).1;
        linked = true;
      })
      (enqueue_at prio proc s.levels)

unfoldable pub add_mlq_proc : Sched → ℕ → ℕ → Option Sched
add_mlq_proc s proc prio =
    Option.map (λ levels. record s { levels = levels; linked = true })
      (enqueue_at prio proc s.levels)

unfoldable pub get_proc : Sched → ℕ × Sched
unfolding get_mlq_proc
get_proc s = get_mlq_proc s

unfoldable pub put_proc : Sched → ℕ → ℕ → Option Sched
unfolding put_mlq_proc
put_proc s proc prio = put_mlq_proc s proc prio

unfoldable pub add_proc : Sched → ℕ → ℕ → Option Sched
unfolding add_mlq_proc
add_proc s proc prio = add_mlq_proc s proc prio
