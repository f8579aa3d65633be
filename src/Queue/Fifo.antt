-- ===== src/Queue/Fifo.antt =====
-- What the queue promises: a first-in first-out list of at most `MAX_QUEUE_SIZE` processes, from
-- whose middle one process may be withdrawn.
use os_lamina_atrium.Base.{ℕ, List, [], ◌∷◌, ◌++◌, ◌==◌, leb, if◌then◌else◌, length}

-- A full list and the NULL process leave the list as it is.
unfoldable pub push : ℕ → List ℕ → ℕ → List ℕ
push cap xs p = if p == 0 then xs else if leb cap (length xs) then xs else xs ++ p ∷ []

-- The oldest process, 0 if there is none, and the others.
unfoldable pub pop : List ℕ → ℕ × List ℕ
pop [] = (0, [])
pop (x ∷ xs) = (x, xs)

-- Withdraws the first occurrence of a process, and says 0 if there is none.
unfoldable pub remove : ℕ → List ℕ → ℕ × List ℕ
remove p [] = (0, [])
remove p (x ∷ xs) = if x == p then (x, xs) else ((remove p xs).0, x ∷ (remove p xs).1)

pub data Op : Type 0 where
  put : ℕ → Op
  take_oldest : Op
  withdraw : ℕ → Op

-- A client's calls in order, with the process that each returns, and the list at the end.
unfoldable pub run : ℕ → List ℕ → List Op → List ℕ × List ℕ
run cap xs [] = ([], xs)
run cap xs (put p ∷ ops) = let (out, last) = run cap (push cap xs p) ops in (0 ∷ out, last)
run cap xs (take_oldest ∷ ops) =
    let (p, rest) = pop xs in let (out, last) = run cap rest ops in (p ∷ out, last)
run cap xs (withdraw p ∷ ops) =
    let (r, rest) = remove p xs in let (out, last) = run cap rest ops in (r ∷ out, last)
