-- ===== src/Queue/View/Calls.antt =====
-- The calls of src/queue.c on queues without their representation, and those of the abstract list.

use mathlib.Core.Quot
use mathlib.Core.Quot.{Quot, Quot-set}
use native.Mathlib.Nat.{ℕ_set}
use os_lamina_atrium.Base.{ℕ, ◌≡◌, sym, ap, ◌∙◌, subst, List}
use os_lamina_atrium.Queue.{max_queue_size, enqueue, dequeue, purgequeue}
use os_lamina_atrium.Queue.Fifo
use os_lamina_atrium.Queue.Refine.{
  contents, IsProc, enqueue_refines, dequeue_refines, purgequeue_refines,
}
use os_lamina_atrium.Queue.View.{
  ValidQueue, QueueView, BoundedFifo, IsBounded, list_of, view, array_of, array_of-IsValid,
  contents-array_of, same_list, BoundedFifo-set,
}

abbrev pub Proc : Type 0
Proc = (p : ℕ) × IsProc p

-- The calls of a queue: what each returns, and the queue after it
pub record QueueOps (X : Type 0) : Type 0 where
  pub put : ℕ → X → X
  pub oldest : X → ℕ
  pub others : X → X
  pub withdrawn : Proc → X → ℕ
  pub without : Proc → X → X

enqueued : ℕ → ValidQueue → ValidQueue
enqueued p (q, v) = let refined = enqueue_refines q p v in (enqueue q p, refined.1)

dequeued : ValidQueue → ℕ × ValidQueue
dequeued (q, v) = let refined = dequeue_refines q v in ((dequeue q).0, ((dequeue q).1, refined.1))

purged : Proc → ValidQueue → ℕ × ValidQueue
purged (p, h) (q, v) =
    let refined = purgequeue_refines q p v h in
    ((purgequeue q p).0, ((purgequeue q p).1, refined.1))

contents-enqueued :
    (p : ℕ) (a : ValidQueue) → contents (enqueued p a).0 ≡ Fifo.push max_queue_size (contents a.0) p
unfolding enqueued
contents-enqueued p (q, v) = let refined = enqueue_refines q p v in refined.0

dequeued_lem :
    (a : ValidQueue) → ((dequeued a).0, contents (dequeued a).1.0) ≡ Fifo.pop (contents a.0)
unfolding dequeued
dequeued_lem (q, v) = let refined = dequeue_refines q v in refined.0

purged_lem :
    (p : Proc) (a : ValidQueue)
    → ((purged p a).0, contents (purged p a).1.0) ≡ Fifo.remove p.0 (contents a.0)
unfolding purged
purged_lem (p, h) (q, v) = let refined = purgequeue_refines q p v h in refined.0

-- The calls of src/queue.c do not see what stands behind the end of the array.
pub array_ops : QueueOps QueueView
array_ops = record {
  put = λ p.
      Quot.lift Quot-set (λ a. Quot.mk (enqueued p a))
        (λ a b h. Quot.sound (
          contents-enqueued p a
          ∙ ap (λ (xs : List ℕ). Fifo.push max_queue_size xs p) h
          ∙ sym (contents-enqueued p b)));
  oldest =
      Quot.lift ℕ_set (λ a. (dequeued a).0)
        (λ a b h.
          ap (λ (r : ℕ × List ℕ). r.0) (dequeued_lem a ∙ ap Fifo.pop h ∙ sym (dequeued_lem b)));
  others =
      Quot.lift Quot-set (λ a. Quot.mk (dequeued a).1)
        (λ a b h.
          Quot.sound
            (ap (λ (r : ℕ × List ℕ). r.1) (dequeued_lem a ∙ ap Fifo.pop h ∙ sym (dequeued_lem b))));
  withdrawn = λ p.
      Quot.lift ℕ_set (λ a. (purged p a).0)
        (λ a b h.
          ap (λ (r : ℕ × List ℕ). r.0)
            (purged_lem p a ∙ ap (Fifo.remove p.0) h ∙ sym (purged_lem p b)));
  without = λ p.
      Quot.lift Quot-set (λ a. Quot.mk (purged p a).1)
        (λ a b h. Quot.sound (
          ap (λ (r : ℕ × List ℕ). r.1)
            (purged_lem p a ∙ ap (Fifo.remove p.0) h ∙ sym (purged_lem p b))));
}

IsBounded-push : (p : ℕ) (xs : List ℕ) → IsBounded xs → IsBounded (Fifo.push max_queue_size xs p)
unfolding enqueued list_of
IsBounded-push p xs h =
    let a : ValidQueue = (array_of xs, array_of-IsValid xs h) in
    subst IsBounded
      (contents-enqueued p a ∙ ap (λ ys. Fifo.push max_queue_size ys p) (contents-array_of xs))
      (list_of (enqueued p a)).1

IsBounded-pop : (xs : List ℕ) → IsBounded xs → IsBounded (Fifo.pop xs).1
unfolding dequeued list_of
IsBounded-pop xs h =
    let a : ValidQueue = (array_of xs, array_of-IsValid xs h) in
    subst IsBounded
      (ap (λ (r : ℕ × List ℕ). r.1) (dequeued_lem a ∙ ap Fifo.pop (contents-array_of xs)))
      (list_of (dequeued a).1).1

IsBounded-remove : (p : Proc) (xs : List ℕ) → IsBounded xs → IsBounded (Fifo.remove p.0 xs).1
unfolding purged list_of
IsBounded-remove p xs h =
    let a : ValidQueue = (array_of xs, array_of-IsValid xs h) in
    subst IsBounded
      (ap (λ (r : ℕ × List ℕ). r.1) (purged_lem p a ∙ ap (Fifo.remove p.0) (contents-array_of xs)))
      (list_of (purged p a).1).1

-- The calls of the abstract list
pub list_ops : QueueOps BoundedFifo
list_ops = record {
  put = λ p b. (Fifo.push max_queue_size b.0 p, IsBounded-push p b.0 b.1);
  oldest = λ b. (Fifo.pop b.0).0;
  others = λ b. ((Fifo.pop b.0).1, IsBounded-pop b.0 b.1);
  withdrawn = λ p b. (Fifo.remove p.0 b.0).0;
  without = λ p b. ((Fifo.remove p.0 b.0).1, IsBounded-remove p b.0 b.1);
}

-- What it is for a view to keep the calls
pub record IsQueueMap {X Y : Type 0} (f : X → Y) (a : QueueOps X) (b : QueueOps Y) : Type 0 where
  pub put_kept : (p : ℕ) (x : X) → f (a.put p x) ≡ b.put p (f x)
  pub oldest_kept : (x : X) → a.oldest x ≡ b.oldest (f x)
  pub others_kept : (x : X) → f (a.others x) ≡ b.others (f x)
  pub withdrawn_kept : (p : Proc) (x : X) → a.withdrawn p x ≡ b.withdrawn p (f x)
  pub without_kept : (p : Proc) (x : X) → f (a.without p x) ≡ b.without p (f x)

pub view-IsQueueMap : IsQueueMap view array_ops list_ops
unfolding view list_of array_ops list_ops
view-IsQueueMap = record {
  put_kept = λ p. Quot.ind (λ v. BoundedFifo-set _ _) (λ a. same_list (contents-enqueued p a));
  oldest_kept = Quot.ind (λ v. ℕ_set _ _) (λ a. ap (λ (r : ℕ × List ℕ). r.0) (dequeued_lem a));
  others_kept =
      Quot.ind (λ v. BoundedFifo-set _ _)
        (λ a. same_list (ap (λ (r : ℕ × List ℕ). r.1) (dequeued_lem a)));
  withdrawn_kept =
      λ p. Quot.ind (λ v. ℕ_set _ _) (λ a. ap (λ (r : ℕ × List ℕ). r.0) (purged_lem p a));
  without_kept = λ p.
      Quot.ind (λ v. BoundedFifo-set _ _)
        (λ a. same_list (ap (λ (r : ℕ × List ℕ). r.1) (purged_lem p a)));
}
