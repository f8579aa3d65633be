-- ===== src/Paging/Table/Walk.antt =====
-- The walk of `pteTravelling`: where it ends, and what it does to the directories on the way.
use os_lamina_atrium.Base.{
  ℕ, ◌+◌, ◌<◌, ◌≡◌, ◌≢◌, refl, sym, ap, ◌∙◌, inl, inr, false, List, [], ◌∷◌, Option, none, some,
  ◌==◌, arith, length, Bool-cases, Option-cases, ==_iff,
}
use os_lamina_atrium.Memphy.{Memphy}
use os_lamina_atrium.Mm.{Table, Tables, Caller, Region, VmArea, Malloc, update}
use os_lamina_atrium.Paging.Table.{add_table, next_table, walk}
use os_lamina_atrium.Paging.Table.Owner.{
  Owner, levels, IsLive, IsTree, descend, value, Leads, onto, Grown, Grown-refl, Grown-trans,
}
use os_lamina_atrium.Paging.Table.Add.{owner', add_table-Grown, add_table-entered}

-- What the C library says of `malloc`: a block that it returns is not in use, nor at address 0.
pub record IsMalloc (malloc : Malloc) : Type 0 where
  pub fresh : (t : Tables) (a : ℕ) → malloc t ≡ some a → (t a ≡ none) × (a ≢ 0)

abbrev pub tables : Caller → Tables
tables c = c.machine.tables

-- What the walk leaves alone: all but the tables and the statistics.
pub record Rest : Type 0 where
  pub pgd : ℕ
  pub mmap : List VmArea
  pub symrgtbl : List Region
  pub fifo_pgn : List ℕ
  pub mram : Memphy
  pub active_mswp : Memphy

abbrev pub rest : Caller → Rest
rest c = record {
  pgd = c.mm.pgd;
  mmap = c.mm.mmap;
  symrgtbl = c.mm.symrgtbl;
  fifo_pgn = c.mm.fifo_pgn;
  mram = c.machine.mram;
  active_mswp = c.machine.active_mswp;
}

not_zero : (n : ℕ) → n ≢ 0 → (n == 0) ≡ false
not_zero n h = ground arith

-- Where one level down leads: to a table `y` that is entered at index `i`, or to none.
abbrev Entered : Owner → Tables → ℕ → ℕ → Option ℕ → Type 0
Entered o t at i none = (is : List ℕ) (j : ℕ) → value t at (i ∷ is) j ≡ 0
Entered o t at i (some y) =
    (table : Table) × (t at ≡ some table) × (table i ≡ y) × (y ≢ 0) × IsLive t y × (o y ≡ i ∷ o at)

record Step (o : Owner) (c : Caller) (at i : ℕ) (result : Option ℕ) (c' : Caller) : Type 0 where
  owner : Owner
  grown : Grown o (tables c) owner (tables c')
  same : rest c' ≡ rest c
  entered : Entered owner (tables c') at i result

-- Where a walk by `is` leads: to a table that they own, or to none, and then there is no entry.
abbrev pub Ended : Owner → Tables → ℕ → List ℕ → Option ℕ → Type 0
Ended o t at is none = (j : ℕ) → value t at is j ≡ 0
Ended o t at is (some y) = Leads t at is y × IsLive t y × (o y ≡ onto is (o at))

pub record Walked (o : Owner) (c : Caller) (at : ℕ) (is : List ℕ) (result : Option ℕ) (c' : Caller)
    : Type 0 where
  pub owner : Owner
  pub grown : Grown o (tables c) owner (tables c')
  pub same : rest c' ≡ rest c
  pub ended : Ended owner (tables c') at is result

module _ (malloc : Malloc) (ok : IsMalloc malloc) where
  next_table_lem :
      (o : Owner) (c : Caller) (at i : ℕ)
      → IsTree o (tables c)
      → IsLive (tables c) at
      → length (o at) < levels
      → (result : Option ℕ) × (c' : Caller) × (next_table malloc at i c ≡ some (result, c'))
        × Step o c at i result c'
  unfolding next_table
  next_table_lem o c at i tr (table, here) l = elim (Bool-cases (table i == 0)) [
    | inl e ↦ elim (Option-cases (malloc (tables c))) [
      | inl full ↦ (
        none,
        c,
        rw (here, next_table, e, full),
        record {
          owner = o;
          grown = Grown-refl tr;
          same = refl;
          entered = λ is j.
              ap (λ (t : Option Table). descend t i (λ y. value (tables c) y is j)) here
              ∙ rw e refl;
        },
      )
      | inr (new, got) ↦ (
        some new,
        add_table c at table i new,
        rw (here, next_table, e, got),
        step_new new ((==_iff (table i) 0).0 e) (ok.fresh (tables c) new got).0
            (ok.fresh (tables c) new got).1,
      )
    ]
    | inr e ↦
        let n : table i ≢ 0 = ground arith in
        let (live, own) = tr.child at i table here l n in
        (
          some (table i),
          c,
          rw (here, next_table, e),
          record {
            owner = o;
            grown = Grown-refl tr;
            same = refl;
            entered = (table, here, refl, n, live, own);
          },
        )
  ]
    where
      step_new :
          (new : ℕ)
          → table i ≡ 0
          → tables c new ≡ none
          → new ≢ 0
          → Step o c at i (some new) (add_table c at table i new)
      step_new new z f n =
          let (there, self, live, own) =
            add_table-entered o (tables c) tr at i new table here l z f n in
          record {
            owner = owner' o (tables c) tr at i new table here l z f n;
            grown = add_table-Grown o (tables c) tr at i new table here l z f n;
            same = refl;
            entered = (update table i new, there, self, n, live, own);
          }

  abbrev pub WalkEnds : List ℕ → Owner → Caller → ℕ → Type 0
  WalkEnds is o c at =
      (result : Option ℕ) × (c' : Caller) × (walk malloc at is c ≡ some (result, c'))
      × Walked o c at is result c'

  after_none :
      (i : ℕ) (is : List ℕ) (o : Owner) (c : Caller) (at : ℕ) (c' : Caller)
      → next_table malloc at i c ≡ some (none, c')
      → Step o c at i none c'
      → WalkEnds (i ∷ is) o c at
  unfolding walk
  after_none i is o c at c' e s = (
    none,
    c',
    rw (e, walk),
    record { owner = s.owner; grown = s.grown; same = s.same; ended = s.entered is },
  )

  -- The end of the walk from the next table is the end of the walk.
  Ended-cons :
      (o : Owner) (t : Tables) (at i y : ℕ) (is : List ℕ) (result : Option ℕ)
      → (table : Table) × (t at ≡ some table) × (table i ≡ y)
      → y ≢ 0
      → o y ≡ i ∷ o at
      → Ended o t y is result
      → Ended o t at (i ∷ is) result
  Ended-cons o t at i y is none (table, there, e) n own ended = λ j.
      ap (λ (tb : Option Table). descend tb i (λ x. value t x is j)) there
      ∙ rw (e, not_zero y n) (ended j)
  Ended-cons o t at i y is (some z) (table, there, e) n own (leads, live, owned) =
      ((table, there, rw e n, rw e leads), live, owned ∙ ap (onto is) own)

  after_some :
      (i : ℕ) (is : List ℕ) (o : Owner) (c : Caller) (at y : ℕ) (c' : Caller)
      → IsLive (tables c) at
      → length (o at) < levels
      → next_table malloc at i c ≡ some (some y, c')
      → (s : Step o c at i (some y) c') → WalkEnds is s.owner c' y
      → WalkEnds (i ∷ is) o c at
  unfolding walk
  after_some i is o c at y c' live l e s (result, c'', e', w) =
      let (table, there, entry, n, live', own) = s.entered in
      let (_, at_own) = s.grown.lives at live in
      let (table', there', kept) =
        w.grown.edges at i table there (rw at_own l) (λ z. n (sym entry ∙ z)) in
      let (_, at_own') = w.grown.lives at (table, there) in
      let (_, y_own) = w.grown.lives y live' in
      (
        result,
        c'',
        rw (e, walk) e',
        record {
          owner = w.owner;
          grown = Grown-trans s.grown w.grown;
          same = w.same ∙ s.same;
          ended =
              Ended-cons w.owner (tables c'') at i y is result (table', there', kept ∙ entry) n
                (y_own ∙ own ∙ ap (◌∷◌ i) (sym at_own')) w.ended;
        },
      )

  -- A walk from a table ends, having grown the directories; it finds the table of its indices, or
  -- lacks the memory for a new one, and then there was no entry.
  pub walk_lem :
      (is : List ℕ) (o : Owner) (c : Caller) (at : ℕ)
      → IsTree o (tables c)
      → IsLive (tables c) at
      → length (o at) + length is ≡ levels
      → WalkEnds is o c at
  unfolding walk
  walk_lem [] o c at tr live l = (
    some at,
    c,
    refl,
    record { owner = o; grown = Grown-refl tr; same = refl; ended = (refl, live, refl) },
  )
  walk_lem (i ∷ is) o c at tr live l =
      after_step (walk_lem is) (next_table_lem o c at i tr live (omega arith))
    where
      after_step :
          ((o' : Owner) (c' : Caller) (y : ℕ)
            → IsTree o' (tables c')
            → IsLive (tables c') y
            → length (o' y) + length is ≡ levels
            → WalkEnds is o' c' y)
          → (result : Option ℕ) × (c' : Caller) × (next_table malloc at i c ≡ some (result, c'))
            × Step o c at i result c'
          → WalkEnds (i ∷ is) o c at
      after_step ih (none, c', e, s) = after_none i is o c at c' e s
      after_step ih (some y, c', e, s) =
          let (_, _, _, _, live', own) = s.entered in
          let (_, at_own) = s.grown.lives at live in
          after_some i is o c at y c' live (omega arith) e s
            (ih s.owner c' y s.grown.tree live' (omega (arith, ap length own, ap length at_own)))
