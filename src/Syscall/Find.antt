-- ===== src/Syscall/Find.antt =====
-- `find_proc_in_queue` of src/sys_mem.c on the contents of a queue.
use os_lamina_atrium.Base.{
  ℕ, zero, suc, ◌+◌, ◌≤◌, ◌<◌, ◌≡◌, refl, ap, subst, ◌∙◌, List, [], ◌∷◌, ◌==◌, false, if◌then◌else◌,
  arith, length, take, drop, get_or, All,
}
use os_lamina_atrium.Queue.{ProcQueue, null}
use os_lamina_atrium.Queue.Refine.{IsProc, IsValid, contents}
use os_lamina_atrium.Syscall.{find_proc_from, find_proc_in_queue}

-- The first process of the list with the number `pid`, NULL if there is none.
abbrev pub first_with : (ℕ → ℕ) → ℕ → List ℕ → ℕ
first_with pid_of pid [] = null
first_with pid_of pid (p ∷ ps) = if pid_of p == pid then p else first_with pid_of pid ps

drop_get : (xs : List ℕ) (i : ℕ) → i < length xs → drop i xs ≡ get_or xs i null ∷ drop (suc i) xs
drop_get [] i h = absurd (omega arith)
drop_get (x ∷ xs) zero h = refl
drop_get (x ∷ xs) (suc i) h = drop_get xs i (omega arith)

find_from :
    (pid_of : ℕ → ℕ) (q : ProcQueue) (pid rounds i : ℕ)
    → i + rounds ≤ length q.proc
    → All IsProc (take rounds (drop i q.proc))
    → find_proc_from pid_of q pid rounds i ≡ first_with pid_of pid (take rounds (drop i q.proc))
unfolding find_proc_from
find_from pid_of q pid zero i l h = refl
find_from pid_of q pid (suc rounds) i l h =
    let one_more : suc i ≡ i + 1 = omega arith in
    let e =
      drop_get q.proc i (omega arith)
      ∙ ap (λ (n : ℕ). get_or q.proc i null ∷ drop n q.proc) one_more in
    let (here, later) = subst (λ (xs : List ℕ). All IsProc (take (suc rounds) xs)) e h in
    let present : (get_or q.proc i null == null) ≡ false = ground arith in
    rw (e, present, find_proc_from)
      (ap (λ (p : ℕ). if pid_of (get_or q.proc i null) == pid then get_or q.proc i null else p)
        (find_from pid_of q pid rounds (i + 1) (omega arith) later))

-- In a valid queue the search gives the first process in it that has the number `pid`, and NULL if
-- there is none.
pub find_proc_in_queue_lem :
    (pid_of : ℕ → ℕ) (q : ProcQueue) (pid : ℕ)
    → IsValid q
    → find_proc_in_queue pid_of q pid ≡ first_with pid_of pid (contents q)
unfolding find_proc_in_queue
find_proc_in_queue_lem pid_of q pid v =
    find_from pid_of q pid q.size 0 (omega (arith, v.array, v.fits)) v.present
