-- ===== src/Queue/View/Same.antt =====
-- The queue of src/queue.c is the abstract list, as a type with calls.
use mathlib.Core.Equiv.{◌≃◌, iso_to_equiv}
use mathlib.Core.Path.{PathP}
use os_lamina_atrium.Base.{ℕ, ◌≡◌}
use os_lamina_atrium.Queue.View.{QueueView, BoundedFifo, view_iso}
use os_lamina_atrium.Queue.View.Calls.{QueueOps, array_ops, list_ops, IsQueueMap, view-IsQueueMap}

-- A type with the calls of a queue
abbrev pub QueueType : Type 1
QueueType = (X : Type 0) × QueueOps X

-- An equivalence that keeps a call is a path along which the call does not change.
change_along :
    {X Y : Type 0} (e : X ≃ Y) (f : X → X) (g : Y → Y)
    → ((x : X) → e.0 (f x) ≡ g (e.0 x))
    → PathP (λ i. V i X Y e → V i X Y e) f g
change_along e f g h =
    λ i x. vin i (f x) (hcom 1 0 (g (vproj i x e)) [ i = 0 ↦ j. h x j | i = 1 ↦ _. g x ])

answer_along :
    {X Y : Type 0} (e : X ≃ Y) (f : X → ℕ) (g : Y → ℕ)
    → ((x : X) → f x ≡ g (e.0 x))
    → PathP (λ i. V i X Y e → ℕ) f g
answer_along e f g h = λ i x. hcom 1 0 (g (vproj i x e)) [ i = 0 ↦ j. h x j | i = 1 ↦ _. g x ]

same_queue :
    {X Y : Type 0} (e : X ≃ Y) (a : QueueOps X) (b : QueueOps Y)
    → IsQueueMap e.0 a b
    → ◌≡◌ {A = QueueType} (X, a) (Y, b)
same_queue {X} {Y} e a b h = λ i. (
  V i X Y e,
  record {
    put = λ p. change_along e (a.put p) (b.put p) (h.put_kept p) i;
    oldest = answer_along e a.oldest b.oldest h.oldest_kept i;
    others = change_along e a.others b.others h.others_kept i;
    withdrawn = λ p. answer_along e (a.withdrawn p) (b.withdrawn p) (h.withdrawn_kept p) i;
    without = λ p. change_along e (a.without p) (b.without p) (h.without_kept p) i;
  },
)

-- Valid array queues, where two that hold the same processes in use are one, are as a type with the
-- calls of src/queue.c equal to the lists of at most `MAX_QUEUE_SIZE` processes with the calls
-- of the abstract list, so whatever holds of the one holds of the other. A call that withdraws is of
-- a process that is not NULL.
pub queue_is_list : ◌≡◌ {A = QueueType} (QueueView, array_ops) (BoundedFifo, list_ops)
unfolding view_iso
queue_is_list = same_queue (iso_to_equiv view_iso) array_ops list_ops view-IsQueueMap
