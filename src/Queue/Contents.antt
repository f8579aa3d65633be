-- ===== src/Queue/Contents.antt =====
-- What the loops of queue.c do to the part of the array that is in use.
use mathlib.Core.Option
use os_lamina_atrium.Base.{
  ℕ, zero, suc, ◌+◌, ◌-◌, ◌≤◌, ◌<◌, ◌≡◌, refl, ap, ◌∙◌, inl, inr, List, [], ◌∷◌, Option, none, some,
  ◌==◌, if◌then◌else◌, arith, get_or, set, take, length, length-set, Bool-cases,
}
use os_lamina_atrium.Queue.{null, shift_left, find_index}

abbrev pub remove_at : ℕ → List ℕ → List ℕ
remove_at i [] = []
remove_at zero (x ∷ xs) = xs
remove_at (suc i) (x ∷ xs) = x ∷ remove_at i xs

-- One element further into the array, the loop does the same.
shift_left-cons :
    (n i x : ℕ) (xs : List ℕ) → shift_left n (suc (suc i)) (x ∷ xs) ≡ x ∷ shift_left n (suc i) xs
unfolding shift_left
shift_left-cons zero i x xs = refl
shift_left-cons (suc n) i x xs =
    let up : suc (suc i) + 1 ≡ suc (suc (suc i)) = omega arith in
    let up' : suc i + 1 ≡ suc (suc i) = omega arith in
    let down : suc (suc i) - 1 ≡ suc i = omega arith in
    let down' : suc i - 1 ≡ i = omega arith in
    rw (up, up', down, down') (shift_left-cons n (suc i) x (set xs i (get_or xs (suc i) null)))

shift_left_front :
    (n x : ℕ) (xs : List ℕ) → n ≤ length xs → take n (shift_left n 1 (x ∷ xs)) ≡ take n xs
unfolding shift_left
shift_left_front zero x xs h = refl
shift_left_front (suc n) x [] h = absurd (omega arith)
shift_left_front (suc n) x (y ∷ xs) h =
    rw (shift_left-cons n 0 y (y ∷ xs)) (ap (◌∷◌ y) (shift_left_front n y xs (omega arith)))

-- The loop that closes the gap at `i` removes that element from the first `n + i + 1`.
pub shift_left_lem :
    (n i : ℕ) (xs : List ℕ)
    → n + i < length xs
    → take (n + i) (shift_left n (suc i) xs) ≡ remove_at i (take (suc (n + i)) xs)
shift_left_lem n i [] h = absurd (omega arith)
shift_left_lem n zero (x ∷ xs) h =
    let e : n + 0 ≡ n = omega arith in rw e (shift_left_front n x xs (omega arith))
shift_left_lem n (suc i) (x ∷ xs) h =
    let e : n + suc i ≡ suc (n + i) = omega arith in
    rw (e, shift_left-cons n i x xs) (ap (◌∷◌ x) (shift_left_lem n i xs (omega arith)))

pub length-shift_left : (n i : ℕ) (xs : List ℕ) → length (shift_left n i xs) ≡ length xs
unfolding shift_left
length-shift_left zero i xs = refl
length-shift_left (suc n) i xs =
    length-shift_left n (i + 1) (set xs (i - 1) (get_or xs i null))
    ∙ length-set xs (i - 1) (get_or xs i null)

abbrev pub first_index : ℕ → List ℕ → Option ℕ
first_index p [] = none
first_index p (x ∷ xs) = if x == p then some 0 else Option.map suc (first_index p xs)

find_index-cons :
    (n i x p : ℕ) (xs : List ℕ)
    → find_index n (suc i) (x ∷ xs) p ≡ Option.map suc (find_index n i xs p)
unfolding find_index
find_index-cons zero i x p xs = refl
find_index-cons (suc n) i x p xs =
    let up : suc i + 1 ≡ suc (i + 1) = omega arith in
    rw (up, find_index-cons n (i + 1) x p xs)
      (elim (Bool-cases (get_or xs i null == p)) [ inl e ↦ rw e | inr e ↦ rw e ])

-- The search of `purgequeue` finds the first index of the process in the part in use.
pub find_index_lem :
    (n p : ℕ) (xs : List ℕ) → n ≤ length xs → find_index n 0 xs p ≡ first_index p (take n xs)
unfolding find_index
find_index_lem zero p xs h = refl
find_index_lem (suc n) p [] h = absurd (omega arith)
find_index_lem (suc n) p (x ∷ xs) h =
    rw (find_index-cons n 0 x p xs, find_index_lem n p xs (omega arith))
