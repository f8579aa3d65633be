-- ===== src/Queue/Refine.antt =====
-- The array queue of queue.c against the list of Queue/Fifo.
use os_lamina_atrium.Base.{
  ℕ, zero, suc, ◌+◌, ◌-◌, ◌≤◌, ◌<◌, ◌≡◌, ◌≢◌, ◌↔◌, refl, ap, ◌∙◌, inl, inr, true, List, [], ◌∷◌,
  ◌++◌, none, some, ◌==◌, arith, get_or, set, take, length, length-set, length-take, take-set_end,
  All, Bool-cases, Option-cases,
}
use os_lamina_atrium.Queue.{
  ProcQueue, max_queue_size, null, fresh, empty, enqueue, shift_left, dequeue, purgequeue,
}
use os_lamina_atrium.Queue.Contents.{
  remove_at, shift_left_lem, length-shift_left, first_index, find_index_lem,
}
use os_lamina_atrium.Queue.Fifo
use os_lamina_atrium.Queue.Fifo.{Op, put, take_oldest, withdraw}

-- The part of the array in use, oldest first.
abbrev pub contents : ProcQueue → List ℕ
contents q = take q.size q.proc

abbrev pub IsProc : ℕ → Type 0
IsProc p = p ≢ 0

pub record IsValid (q : ProcQueue) : Type 0 where
  pub array : length q.proc ≡ max_queue_size
  pub fits : q.size ≤ max_queue_size
  pub present : All IsProc (contents q)

pub length-contents : {q : ProcQueue} → IsValid q → length (contents q) ≡ q.size
length-contents {q} v = omega (arith, length-take q.size q.proc)

pub All-snoc : (xs : List ℕ) (p : ℕ) → All IsProc xs → IsProc p → All IsProc (xs ++ p ∷ [])
All-snoc [] p h hp = (hp, tt)
All-snoc (x ∷ xs) p h hp = (h.0, All-snoc xs p h.1 hp)

All-remove_at : (i : ℕ) (xs : List ℕ) → All IsProc xs → All IsProc (remove_at i xs)
All-remove_at i [] h = tt
All-remove_at zero (x ∷ xs) h = h.1
All-remove_at (suc i) (x ∷ xs) h = (h.0, All-remove_at i xs h.1)

pub fresh-IsValid : IsValid fresh
unfolding fresh
fresh-IsValid = omega arith

-- `empty` answers whether the list is empty.
pub empty_lem : (q : ProcQueue) → IsValid q → (empty q ≡ true) ↔ (contents q ≡ [])
unfolding empty
empty_lem q v = ground (arith, length-contents v)

append_end :
    (q : ProcQueue) (p : ℕ)
    → IsValid q
    → q.size < max_queue_size
    → take (q.size + 1) (set q.proc q.size p) ≡ contents q ++ p ∷ []
append_end q p v room =
    let e : q.size + 1 ≡ suc q.size = omega arith in
    rw e (take-set_end q.proc q.size p (omega (arith, v.array)))

-- `enqueue` appends the process, unless it is NULL or the queue is full, and keeps the queue valid.
pub enqueue_refines :
    (q : ProcQueue) (p : ℕ)
    → IsValid q
    → (contents (enqueue q p) ≡ Fifo.push max_queue_size (contents q) p) × IsValid (enqueue q p)
unfolding enqueue Fifo.push
enqueue_refines q p v = ground (
  arith,
  length-contents v,
  append_end q p v,
  length-set q.proc q.size p,
  All-snoc (contents q) p v.present,
)

remove_at_front : (xs : List ℕ) → remove_at 0 xs ≡ (Fifo.pop xs).1
unfolding Fifo.pop
remove_at_front [] = refl
remove_at_front (x ∷ xs) = refl

-- What the loop leaves in use when it closes the gap at `i`.
close_gap :
    (q : ProcQueue) (i : ℕ)
    → IsValid q
    → i < q.size
    → take (q.size - 1) (shift_left (q.size - (i + 1)) (i + 1) q.proc) ≡ remove_at i (contents q)
close_gap q i v h =
    let e : q.size - 1 ≡ q.size - suc i + i = omega arith in
    let e' : i + 1 ≡ suc i = omega arith in
    let whole : suc (q.size - suc i + i) ≡ q.size = omega arith in
    rw (e, e')
      (shift_left_lem (q.size - suc i) i q.proc (omega (arith, v.array))
        ∙ ap (λ (n : ℕ). remove_at i (take n q.proc)) whole)

front : (n : ℕ) (xs : List ℕ) → 0 < n → get_or xs 0 null ≡ (Fifo.pop (take n xs)).0
unfolding Fifo.pop
front zero xs h = absurd (omega arith)
front (suc n) [] h = refl
front (suc n) (x ∷ xs) h = refl

get_or-take :
    (n i : ℕ) (xs : List ℕ) → i < length (take n xs) → get_or (take n xs) i null ≡ get_or xs i null
get_or-take zero i xs h = absurd (omega arith)
get_or-take (suc n) i [] h = refl
get_or-take (suc n) zero (x ∷ xs) h = refl
get_or-take (suc n) (suc i) (x ∷ xs) h = get_or-take n i xs (omega arith)

closed-IsValid :
    (q : ProcQueue) (i : ℕ)
    → IsValid q
    → i < q.size
    → IsValid (record { proc = shift_left (q.size - (i + 1)) (i + 1) q.proc; size = q.size - 1 })
closed-IsValid q i v h = record {
  array = length-shift_left (q.size - (i + 1)) (i + 1) q.proc ∙ v.array;
  fits = omega (arith, v.fits);
  present = rw (close_gap q i v h) (All-remove_at i (contents q) v.present);
}

-- `dequeue` returns the oldest process and leaves the others in their order; of an empty queue it
-- returns NULL. It keeps the queue valid.
pub dequeue_refines :
    (q : ProcQueue)
    → IsValid q
    → let (p, q') = dequeue q in ((p, contents q') ≡ Fifo.pop (contents q)) × IsValid q'
unfolding dequeue Fifo.pop
dequeue_refines q v = elim (Bool-cases (q.size == 0)) [
  | inl e ↦ ground (arith, length-contents v)
  | inr e ↦ ground (
    arith,
    front q.size q.proc,
    close_gap q 0 v (ground arith),
    remove_at_front (contents q),
    closed-IsValid q 0 v (ground arith),
  )
]

remove-none : (p : ℕ) (xs : List ℕ) → first_index p xs ≡ none → Fifo.remove p xs ≡ (0, xs)
unfolding Fifo.remove
remove-none p [] h = refl
remove-none p (x ∷ xs) h = ground (arith, remove-none p xs)

remove-some :
    (p i : ℕ) (xs : List ℕ)
    → first_index p xs ≡ some i
    → (Fifo.remove p xs ≡ (p, remove_at i xs)) × (i < length xs) × (get_or xs i null ≡ p)
unfolding Fifo.remove
remove-some p i [] h = cc
remove-some p zero (x ∷ xs) h = ground arith
remove-some p (suc i) (x ∷ xs) h = ground (arith, remove-some p i xs)

-- `purgequeue` of a process withdraws its first occurrence and returns it; where the process is not
-- in the queue, it returns NULL and changes nothing. It keeps the queue valid.
pub purgequeue_refines :
    (q : ProcQueue) (p : ℕ)
    → IsValid q
    → IsProc p
    → let (r, q') = purgequeue q p in ((r, contents q') ≡ Fifo.remove p (contents q)) × IsValid q'
unfolding purgequeue
purgequeue_refines q p v hp = elim (Option-cases (first_index p (contents q))) [
  | inl e ↦ ground (
    arith,
    find_index_lem q.size p q.proc (omega (arith, v.array, v.fits)),
    remove-none p (contents q) e,
  )
  | inr (i, e) ↦ ground (
    arith,
    find_index_lem q.size p q.proc (omega (arith, v.array, v.fits)),
    remove-some p i (contents q) e,
    length-contents v,
    get_or-take q.size i q.proc,
    close_gap q i v,
    closed-IsValid q i v,
  )
]

-- The calls of a client on the array.
unfoldable pub run : ProcQueue → List Op → List ℕ × ProcQueue
run q [] = ([], q)
run q (put p ∷ ops) = let (out, last) = run (enqueue q p) ops in (0 ∷ out, last)
run q (take_oldest ∷ ops) =
    let (p, rest) = dequeue q in let (out, last) = run rest ops in (p ∷ out, last)
run q (withdraw p ∷ ops) =
    let (r, rest) = purgequeue q p in let (out, last) = run rest ops in (r ∷ out, last)

abbrev pub Withdraws : Op → Type 0
Withdraws (withdraw p) = IsProc p
Withdraws (put p) = Unit
Withdraws take_oldest = Unit

reply :
    (r : ℕ) {s t : List ℕ × List ℕ}
    → s ≡ t
    → ◌≡◌ {A = List ℕ × List ℕ} (r ∷ s.0, s.1) (r ∷ t.0, t.1)
reply r e = ap (λ (t : List ℕ × List ℕ). (r ∷ t.0, t.1)) e

-- No sequence of calls, in which the processes to withdraw are not NULL, tells a valid queue from
-- the bounded list of its contents, and the queue stays valid.
pub run_refines :
    (ops : List Op) (q : ProcQueue)
    → IsValid q
    → All Withdraws ops
    → let (out, last) = run q ops in
      ((out, contents last) ≡ Fifo.run max_queue_size (contents q) ops) × IsValid last
unfolding run Fifo.run
run_refines [] q v h = (refl, v)
run_refines (put p ∷ ops) q v h =
    let (same, v') = enqueue_refines q p v in
    let (rest, last) = run_refines ops (enqueue q p) v' h.1 in (rw (← same) (reply 0 rest), last)
run_refines (take_oldest ∷ ops) q v h =
    let (same, v') = dequeue_refines q v in
    let (rest, last) = run_refines ops (dequeue q).1 v' h.1 in
    (rw (← same) (reply (dequeue q).0 rest), last)
run_refines (withdraw p ∷ ops) q v h =
    let (same, v') = purgequeue_refines q p v h.0 in
    let (rest, last) = run_refines ops (purgequeue q p).1 v' h.1 in
    (rw (← same) (reply (purgequeue q p).0 rest), last)
