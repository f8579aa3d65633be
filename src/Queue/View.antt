-- ===== src/Queue/View.antt =====
-- The queue of src/queue.c without its representation: arrays that hold the same processes in use are
-- one queue, whatever stands behind the end.
pub mod Calls
pub mod Same
use mathlib.Core.Equiv.{Iso}
use mathlib.Core.HLevel.{Σ_prop_path, ×_prop}
use mathlib.Core.Quot
use mathlib.Core.Quot.{Quot, Quot-set}
use native.Mathlib.Bridge.{le_prop}
use native.Mathlib.Nat.{ℕ_set}
use os_lamina_atrium.Base.{
  ℕ, ◌+◌, ◌-◌, ◌≤◌, ◌≡◌, refl, sym, ap, subst, List, [], ◌∷◌, ◌++◌, arith, take, replicate, length,
  length-append, length-replicate, All,
}
use os_lamina_atrium.Queue.{ProcQueue, max_queue_size}
use os_lamina_atrium.Queue.Fifo
use os_lamina_atrium.Queue.Refine.{contents, IsProc, IsValid, length-contents}

abbrev pub ValidQueue : Type 0
ValidQueue = (q : ProcQueue) × IsValid q

abbrev pub SameContents : ValidQueue → ValidQueue → Type 0
SameContents a b = contents a.0 ≡ contents b.0

abbrev pub QueueView : Type 0
QueueView = Quot SameContents

-- The lists of at most `MAX_QUEUE_SIZE` processes
abbrev pub IsBounded : List ℕ → Type 0
IsBounded xs = (length xs ≤ max_queue_size) × All IsProc xs

abbrev pub BoundedFifo : Type 0
BoundedFifo = (xs : List ℕ) × IsBounded xs

All-IsProc_prop : (xs : List ℕ) → IsProp (All IsProc xs)
All-IsProc_prop [] = hlevel
All-IsProc_prop (x ∷ xs) = ×_prop (hlevel) (All-IsProc_prop xs)

IsBounded-prop : (xs : List ℕ) → IsProp (IsBounded xs)
IsBounded-prop xs = ×_prop le_prop (All-IsProc_prop xs)

pub same_list : {a b : BoundedFifo} → a.0 ≡ b.0 → a ≡ b
same_list = Σ_prop_path IsBounded-prop

unfoldable pub list_of : ValidQueue → BoundedFifo
list_of (q, v) = (contents q, (omega (arith, length-contents v, v.fits), v.present))

pub BoundedFifo-set : IsSet BoundedFifo
BoundedFifo-set = hlevel (ℕ_set, IsBounded-prop)

-- From the array to the list
unfoldable pub view : QueueView → BoundedFifo
unfolding list_of
view = Quot.lift BoundedFifo-set list_of (λ a b h. same_list h)

take-append : (xs ys : List ℕ) → take (length xs) (xs ++ ys) ≡ xs
take-append [] ys = refl
take-append (x ∷ xs) ys = ap (λ (rest : List ℕ). x ∷ rest) (take-append xs ys)

-- An array that holds the list, and 0 behind its end
unfoldable pub array_of : List ℕ → ProcQueue
array_of xs = record { proc = xs ++ replicate (max_queue_size - length xs) 0; size = length xs }

pub contents-array_of : (xs : List ℕ) → contents (array_of xs) ≡ xs
unfolding array_of
contents-array_of xs = take-append xs (replicate (max_queue_size - length xs) 0)

pub array_of-IsValid : (xs : List ℕ) → IsBounded xs → IsValid (array_of xs)
unfolding array_of
array_of-IsValid xs (fits, procs) = record {
  array = omega (
    arith,
    length-append xs (replicate (max_queue_size - length xs) 0),
    length-replicate {A = ℕ} (max_queue_size - length xs) 0,
    fits,
  );
  fits = fits;
  present = subst (All IsProc) (sym (contents-array_of xs)) procs;
}

stored : BoundedFifo → QueueView
stored (xs, h) = Quot.mk (array_of xs, array_of-IsValid xs h)

pub view_iso : Iso QueueView BoundedFifo
unfolding view list_of stored
view_iso = record {
  fun = view;
  inv = stored;
  rinv = λ b. same_list (contents-array_of b.0);
  linv = Quot.ind (λ v. Quot-set _ _) (λ a. Quot.sound (contents-array_of (contents a.0)));
}
