-- ===== src/Sched/Select.antt =====
-- Which process `get_mlq_proc` chooses.
use os_lamina_atrium.Base.{
  failure, ℕ, ◌+◌, ◌-◌, ◌≤◌, ◌<◌, ◌≡◌, ◌≢◌, refl, ap, ap₂, subst, ltb→lt, ◌⊎◌, inl, inr, true,
  false, List, [], ◌∷◌, ◌++◌, ltb, if◌then◌else◌, arith, length, All, Bool-cases,
}
use os_lamina_atrium.Queue.{null, max_queue_size, empty, dequeue}
use os_lamina_atrium.Queue.Fifo
use os_lamina_atrium.Queue.Refine.{IsProc, contents, empty_lem, enqueue_refines, dequeue_refines}
use os_lamina_atrium.Sched.{Level, Sched, max_prio, scan, get_mlq_proc, all_empty, queue_empty}
use os_lamina_atrium.Sched.Inv.{get_mlq_proc-IsValid, IsLevel, AreLevels, IsValid}

-- The level has nothing to run, or has used up its budget.
abbrev pub IsPassed : Level → Type 0
IsPassed l = (contents l.queue ≡ []) ⊎ (l.slot ≡ 0)

-- A level that is passed over with processes in it gets its budget back.
abbrev pub refill : ℕ → List Level → List Level
refill prio [] = []
refill prio (l ∷ ls) =
    (if empty l.queue then l else record l { slot = max_prio - prio }) ∷ refill (prio + 1) ls

-- The levels with `chosen` after `before`, and what one dispatch from `chosen` makes of them.
pub record Dispatch (prio : ℕ) (levels levels' : List Level) (p : ℕ) : Type 0 where
  pub before : List Level
  pub chosen : Level
  pub after : List Level
  pub others : List ℕ
  pub left : Level
  pub split : levels ≡ before ++ chosen ∷ after
  pub passed : All IsPassed before
  pub first : contents chosen.queue ≡ p ∷ others
  pub split' : levels' ≡ refill prio before ++ left ∷ after
  pub rest : contents left.queue ≡ others
  pub paid : left.slot + 1 ≡ chosen.slot

-- No level has both a process and budget, and those with processes get their budget back.
pub record Idle (prio : ℕ) (levels levels' : List Level) : Type 0 where
  pub passed : All IsPassed levels
  pub refilled : levels' ≡ refill prio levels

abbrev pub Outcome : ℕ → List Level → List Level → ℕ → Type 0
Outcome prio levels levels' p =
    (Dispatch prio levels levels' p × IsProc p) ⊎ (Idle prio levels levels' × (p ≡ null))

pass_over :
    (prio p : ℕ) (l r : Level) (ls ls' : List Level)
    → IsPassed l
    → r ≡ (if empty l.queue then l else record l { slot = max_prio - prio })
    → Outcome (prio + 1) ls ls' p
    → Outcome prio (l ∷ ls) (r ∷ ls') p
pass_over prio p l r ls ls' h e (inl (d, hp)) = inl (
  record {
    before = l ∷ d.before;
    chosen = d.chosen;
    after = d.after;
    others = d.others;
    left = d.left;
    split = ap (◌∷◌ l) d.split;
    passed = (h, d.passed);
    first = d.first;
    split' = ap₂ ◌∷◌ e d.split';
    rest = d.rest;
    paid = d.paid;
  },
  hp,
)
pass_over prio p l r ls ls' h e (inr (idle, hp)) =
    inr (record { passed = (h, idle.passed); refilled = ap₂ ◌∷◌ e idle.refilled }, hp)

Dispatch-here :
    (prio : ℕ) (l : Level) (ls : List Level) (held : List ℕ)
    → contents l.queue ≡ held
    → IsLevel prio l
    → empty l.queue ≡ false
    → 0 < l.slot
    → Dispatch prio
        (l ∷ ls)
        (record { queue = (dequeue l.queue).1; slot = l.slot - 1 } ∷ ls)
        (dequeue l.queue).0
      × IsProc (dequeue l.queue).0
unfolding Fifo.pop
Dispatch-here prio l ls [] e v some_left b = absurd (cc ((empty_lem l.queue v.queue_valid).1 e))
Dispatch-here prio l ls (x ∷ xs) e v some_left b =
    let (same, _) = dequeue_refines l.queue v.queue_valid in
    let popped : (dequeue l.queue).0 ≡ x = ap (λ (t : ℕ × List ℕ). t.0) (rw e at same) in
    (
      record {
        before = [];
        chosen = l;
        after = ls;
        others = xs;
        left = record { queue = (dequeue l.queue).1; slot = l.slot - 1 };
        split = refl;
        passed = tt;
        first = rw popped e;
        split' = refl;
        rest = ap (λ (t : ℕ × List ℕ). t.1) (rw e at same);
        paid = omega arith;
      },
      rw popped (subst (All IsProc) e v.queue_valid.present).0,
    )

-- The scan dispatches from the first level with a process and budget, or finds no such level.
scan_lem :
    (prio : ℕ) (ls : List Level)
    → AreLevels prio ls
    → Outcome prio ls (scan prio ls).1 (scan prio ls).0
unfolding scan
scan_lem prio [] v = inr (record { passed = tt; refilled = refl }, refl)
scan_lem prio (l ∷ ls) v = elim (Bool-cases (empty l.queue)) [
  | inl e ↦ rw e (
      pass_over prio _ l l ls _ (inl ((empty_lem l.queue v.0.queue_valid).0 e)) (rw e)
        (scan_lem (prio + 1) ls v.1))
  | inr e ↦ rw e (elim (Bool-cases (ltb 0 l.slot)) [
    | inl b ↦ rw b (inl (Dispatch-here prio l ls (contents l.queue) refl v.0 e (ltb→lt 0 l.slot b)))
    | inr b ↦
        rw b (pass_over prio _ l _ ls _ (inr (ground arith)) (rw e) (scan_lem (prio + 1) ls v.1))
  ])
]

-- `get_mlq_proc` takes the oldest process of the first level that has both a process and budget,
-- charges that level one unit, gives every level with processes before it a new budget, and
-- appends the process to the running list as far as that has room. If there is no such level it
-- returns NULL, and every level with processes gets a new budget.
pub get_mlq_proc-Outcome :
    (s : Sched)
    → IsValid s
    → let (p, s') = get_mlq_proc s in
      Outcome 0 s.levels s'.levels p
      × (contents s'.running_list ≡ Fifo.push max_queue_size (contents s.running_list) p)
unfolding get_mlq_proc Fifo.push
get_mlq_proc-Outcome s v = (
  scan_lem 0 s.levels v.levels_valid,
  ground (arith, enqueue_refines s.running_list (scan 0 s.levels).0 v.running_valid),
)

not-IsPassed :
    (prio : ℕ) (l : Level)
    → prio < max_prio
    → IsLevel prio l
    → empty l.queue ≡ false
    → ¬ IsPassed (record l { slot = max_prio - prio })
not-IsPassed prio l h v e (inl none_held) = cc ((empty_lem l.queue v.queue_valid).1 none_held)
not-IsPassed prio l h v e (inr no_budget) = omega arith

-- After a refill a level can only be passed over if it is empty.
refilled_passed :
    (prio : ℕ) (ls : List Level)
    → prio + length ls ≤ max_prio
    → AreLevels prio ls
    → All IsPassed (refill prio ls)
    → all_empty ls ≡ true
refilled_passed prio [] h v passed = refl
refilled_passed prio (l ∷ ls) h v passed =
    let rest = refilled_passed (prio + 1) ls (omega arith) v.1 passed.1 in
    elim (Bool-cases (empty l.queue)) [
      | inl e ↦ rw (e, rest)
      | inr e ↦ absurd (not-IsPassed prio l (omega arith) v.0 e (rw e at passed.0))
    ]

-- While a level holds a process, of two calls of `get_mlq_proc` in a row at least one returns a
-- process: a call that returns NULL has renewed the budgets.
pub get_mlq_proc_twice :
    (s : Sched)
    → IsValid s
    → queue_empty s ≡ failure
    → (get_mlq_proc s).0 ≡ null
    → (get_mlq_proc (get_mlq_proc s).1).0 ≢ null
unfolding queue_empty get_mlq_proc
get_mlq_proc_twice s v held first =
    second_finds (get_mlq_proc-Outcome s v).0
      (get_mlq_proc-Outcome (get_mlq_proc s).1 (get_mlq_proc-IsValid s v)).0
  where
    second_finds :
        Outcome 0 s.levels (get_mlq_proc s).1.levels (get_mlq_proc s).0
        → Outcome 0
            (get_mlq_proc s).1.levels
            (get_mlq_proc (get_mlq_proc s).1).1.levels
            (get_mlq_proc (get_mlq_proc s).1).0
        → (get_mlq_proc (get_mlq_proc s).1).0 ≢ null
    second_finds (inl (d, hp)) other = absurd (hp first)
    second_finds (inr idle) (inl (d, hp)) = hp
    second_finds (inr (idle, _)) (inr (idle', _)) =
        let all : all_empty s.levels ≡ true =
          refilled_passed 0 s.levels (omega (arith, v.all_levels)) v.levels_valid
            (subst (All IsPassed) idle.refilled idle'.passed) in
        ground arith
