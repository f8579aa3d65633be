-- ===== src/Queue.antt =====
-- src/queue.c and include/queue.h: an array of `MAX_QUEUE_SIZE` pointers to processes and a count.
-- A pointer is a number, and NULL is 0. Every caller passes the address of a static queue, so the
-- tests `q == NULL` have no counterpart here: a queue is passed as a value and returned changed.
mod Contents
pub mod Fifo
pub mod Refine
pub mod View
pub mod Count
use os_lamina_atrium.Base.{
  ℕ, zero, suc, ◌+◌, ◌-◌, ◌||◌, Bool, List, Option, none, some, ◌==◌, leb, if◌then◌else◌, get_or,
  set, replicate,
}

abbrev pub max_queue_size : ℕ
max_queue_size = 50

abbrev pub null : ℕ
null = 0

-- `struct queue_t`
pub record ProcQueue : Type 0 where
  pub proc : List ℕ
  pub size : ℕ

-- A queue whose size has been set to 0; the slots hold whatever they hold.
unfoldable pub fresh : ProcQueue
fresh = record { proc = replicate max_queue_size null; size = 0 }

unfoldable pub empty : ProcQueue → Bool
empty q = q.size == 0

unfoldable pub enqueue : ProcQueue → ℕ → ProcQueue
enqueue q proc =
    if proc == null
    then q
    else if leb max_queue_size q.size
    then q
    else record q { proc = set q.proc q.size proc; size = q.size + 1 }

-- `for (; i < i + rounds; i++) proc[i - 1] = proc[i];`
unfoldable pub shift_left : ℕ → ℕ → List ℕ → List ℕ
shift_left zero i proc = proc
shift_left (suc rounds) i proc = shift_left rounds (i + 1) (set proc (i - 1) (get_or proc i null))

unfoldable pub dequeue : ProcQueue → ℕ × ProcQueue
unfolding shift_left
dequeue q = if q.size == 0 then (null, q) else (
  get_or q.proc 0 null,
  record q { proc = shift_left (q.size - 1) 1 q.proc; size = q.size - 1 },
)

-- The first index from `i` on, within `rounds` slots, that holds `proc`.
unfoldable pub find_index : ℕ → ℕ → List ℕ → ℕ → Option ℕ
find_index zero i procs proc = none
find_index (suc rounds) i procs proc =
    let rest = find_index rounds (i + 1) procs proc in
    if get_or procs i null == proc then some i else rest

remove_index : ProcQueue → Option ℕ → ℕ × ProcQueue
unfolding shift_left
remove_index q none = (null, q)
remove_index q (some idx) = (
  get_or q.proc idx null,
  record q { proc = shift_left (q.size - (idx + 1)) (idx + 1) q.proc; size = q.size - 1 },
)

unfoldable pub purgequeue : ProcQueue → ℕ → ℕ × ProcQueue
unfolding find_index remove_index
purgequeue q proc =
    if proc == null || q.size == 0
    then (null, q)
    else remove_index q (find_index q.size 0 q.proc proc)
