-- ===== src/Queue/Count.antt =====
-- How often a process is in a queue, before and after each operation of the list of Queue/Fifo.
use os_lamina_atrium.Base.{
  ℕ, ◌+◌, ◌<◌, ◌≡◌, List, [], ◌∷◌, leb, if◌then◌else◌, arith, length, one_if, count, count-append,
}
use os_lamina_atrium.Queue.Fifo
use os_lamina_atrium.Queue.Refine.{IsProc}

pub count-push :
    (cap a p : ℕ) (xs : List ℕ)
    → IsProc a
    → count a (Fifo.push cap xs p) + (if leb cap (length xs) then one_if a p else 0)
      ≡ count a xs + one_if a p
unfolding Fifo.push
count-push cap a p xs h = ground (arith, count-append a xs (p ∷ []))

pub count-pop :
    (a : ℕ) (xs : List ℕ)
    → IsProc a
    → count a (Fifo.pop xs).1 + one_if a (Fifo.pop xs).0 ≡ count a xs
unfolding Fifo.pop
count-pop a [] h = ground arith
count-pop a (x ∷ xs) h = omega arith

pub count-remove :
    (a p : ℕ) (xs : List ℕ)
    → IsProc a
    → count a (Fifo.remove p xs).1 + one_if a (Fifo.remove p xs).0 ≡ count a xs
unfolding Fifo.remove
count-remove a p [] h = ground arith
count-remove a p (x ∷ xs) h = ground (arith, count-remove a p xs h)

pub remove_found : (p : ℕ) (xs : List ℕ) → 0 < count p xs → (Fifo.remove p xs).0 ≡ p
unfolding Fifo.remove
remove_found p [] h = absurd (omega arith)
remove_found p (x ∷ xs) h = ground (arith, remove_found p xs)
