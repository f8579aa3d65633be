-- ===== src/Sched/Calls.antt =====
-- The scheduler as its clients use it: the CPUs of src/os.c call `get_proc` and `put_proc`, its
-- loader calls `add_proc`, in any order.
use os_lamina_atrium.Base.{ℕ, List, [], ◌∷◌, Option, none, some}
use os_lamina_atrium.Sched.{Sched, get_mlq_proc, put_mlq_proc, add_mlq_proc}

pub data Call : Type 0 where
  get : Call
  put : (proc prio : ℕ) → Call
  add : (proc prio : ℕ) → Call

-- One call by a CPU or by the loader; `none` is a fault.
unfoldable pub step : Sched → Call → Option Sched
step s get = some (get_mlq_proc s).1
step s (put proc prio) = put_mlq_proc s proc prio
step s (add proc prio) = add_mlq_proc s proc prio

unfoldable pub run : Sched → List Call → Option Sched
run s [] = some s
run s (c ∷ cs) = elim (step s c) [ none ↦ none | some s' ↦ run s' cs ]
