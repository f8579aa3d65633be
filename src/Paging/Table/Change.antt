-- ===== src/Paging/Table/Change.antt =====
-- The functions that write an entry, on the directories as maps from page numbers to entries.
use os_lamina_atrium.Base.{
  ℕ, ◌%◌, ◌^◌, ◌≡◌, ◌≢◌, ◌↔◌, refl, sym, ap, subst, ◌∙◌, ◌⊎◌, inl, inr, ◌&&◌, List, [], ◌∷◌, Option,
  none, some, ◌==◌, if◌then◌else◌, arith, length, All, Bool-cases, Option-cases, ==_iff, ℤ, success,
}
use os_lamina_atrium.Mm.{Table, Tables, Caller, Malloc, update}
use os_lamina_atrium.Paging.Addr.{Indices, get_pd_from_pagenum, page_address}
use os_lamina_atrium.Paging.Addr.Laws.{get_pd_from_pagenum_iff}
use os_lamina_atrium.Paging.Table.{
  path, count_access, next_table, walk, pte_travelling, entry_index, change_entry, pte_change,
}
use os_lamina_atrium.Paging.Table.Owner.{Owner, levels, IsLive, IsTree, value, Leads, onto}
use os_lamina_atrium.Paging.Table.Walk.{IsMalloc, rest, tables, WalkEnds, walk_lem}
use os_lamina_atrium.Paging.Table.Store.{
  Leads-value, stored, stored-IsLive, stored-IsTree, value-stored, value_kept,
}
use os_lamina_atrium.Paging.Table.Map.{
  indices, entry, IsRoot, ArePaged, same_page, SameEntries, roots-Grown,
}

indices_of : (q : ℕ) → indices q ≡ get_pd_from_pagenum q
unfolding get_pd_from_pagenum
indices_of q = refl

-- Two pages with the same indices, and two with others.
pub indices_iff : (p q : ℕ) → (indices p ≡ indices q) ↔ (p % 2 ^ 45 ≡ q % 2 ^ 45)
unfolding get_pd_from_pagenum
indices_iff p q = get_pd_from_pagenum_iff p q

head_of : List ℕ → ℕ
head_of [] = 0
head_of (x ∷ xs) = x

tail_of : List ℕ → List ℕ
tail_of [] = []
tail_of (x ∷ xs) = xs

abbrev from_list : List ℕ → ℕ → Indices
from_list l pt = record {
  pmd = head_of l;
  pud = head_of (tail_of l);
  p4d = head_of (tail_of (tail_of l));
  pgd = head_of (tail_of (tail_of (tail_of l)));
  pt = pt;
}

-- Two ways, from a root and to an entry, that are the same have the same root and the same indices.
same_way :
    (d d' : Indices) (r r' : ℕ)
    → onto (path d) (r ∷ []) ≡ onto (path d') (r' ∷ [])
    → d.pt ≡ d'.pt
    → (d ≡ d') × (r ≡ r')
unfolding head_of tail_of
same_way d d' r r' e last = (
  (λ i. from_list (e i) (last i)),
  ap (λ (l : List ℕ). head_of (tail_of (tail_of (tail_of (tail_of l))))) e,
)

other_way :
    (p q r r' : ℕ)
    → (r ≡ r' → p % 2 ^ 45 ≢ q % 2 ^ 45)
    → (onto (path (indices q)) (r ∷ []) ≢ onto (path (indices p)) (r' ∷ []))
      ⊎ (entry_index q ≢ entry_index p)
other_way p q r r' h = elim (Bool-cases (entry_index q == entry_index p)) [
  | inr e ↦ inr (ground arith)
  | inl e ↦ inl (λ same.
      let (d, root) = same_way (indices q) (indices p) r r' same ((==_iff _ _).0 e) in
      h root (sym ((indices_iff q p).0 d)))
]

-- After writing `v` into the entry of page `p` in the directories at `root`, the entries of the
-- processes with these first tables: page `p` of that one has the entry `v`, and so has each page
-- number with the same place; every other page, of this process and of the others, has the entry
-- that it had.
abbrev pub Changed : Tables → Tables → ℕ → ℕ → ℕ → List ℕ → Type 0
Changed t t' root p v roots =
    All (λ r. (q : ℕ) → entry t' r q ≡ (if (r == root) && same_page q p then v else entry t r q))
      roots

module _ (o : Owner) (t : Tables) (tr : IsTree o t) (root p x v : ℕ) (table : Table)
    (own : o root ≡ root ∷ []) (live : IsLive t root) (leads : Leads t root (path (indices p)) x)
    (here : t x ≡ some table) (owned : o x ≡ onto (path (indices p)) (o root)) where
  last : length (o x) ≡ levels
  last = omega (arith, ap length owned, ap length (ap (onto (path (indices p))) own))

  abbrev after : Tables
  after = stored o t tr x (entry_index p) v table here last

  way : o x ≡ onto (path (indices p)) (root ∷ [])
  way = owned ∙ ap (onto (path (indices p))) own

  written : (q : ℕ) → q % 2 ^ 45 ≡ p % 2 ^ 45 → entry after root q ≡ v
  written q same =
      ap (λ (d : Indices). value after root (path d) d.pt) ((indices_iff q p).1 same)
      ∙ value-stored o t tr x (entry_index p) v table here last (path (indices p)) root
          (omega (arith, ap length own)) live leads

  kept :
      (r q : ℕ)
      → IsRoot o t r
      → (r ≡ root → q % 2 ^ 45 ≢ p % 2 ^ 45)
      → entry after r q ≡ entry t r q
  kept r q (r_live, r_own) other =
      value_kept o t tr x (entry_index p) v table here last (path (indices q)) r (entry_index q)
        (omega (arith, ap length r_own)) r_live
        (rw (r_own, way) (other_way p q r root (λ e h. other e (sym h))))

  store-Changed :
      (roots : List ℕ)
      → All (IsRoot o t) roots
      → All (IsRoot o after) roots × Changed t after root p v roots
  store-Changed [] h = (tt, tt)
  store-Changed (r ∷ rs) ((r_live, r_own), h) =
      let (hs, cs) = store-Changed rs h in
      (
        ((stored-IsLive o t tr x (entry_index p) v table here last r r_live, r_own), hs),
        (
          (λ q. elim (Bool-cases ((r == root) && same_page q p)) [
            | inl e ↦
                let same : r ≡ root = ground arith in
                let place : q % 2 ^ 45 ≡ p % 2 ^ 45 = ground arith in
                rw e (ap (λ (r' : ℕ). entry after r' q) same ∙ written q place)
            | inr e ↦ rw e (kept r q (r_live, r_own) (ground arith))
          ]),
          cs,
        ),
      )

-- What writing the entry of a page gives: it succeeds, the directories stay trees without a common
-- table, and the entries are changed.
abbrev pub PteChange : Caller → List ℕ → ℕ → (ℕ → ℕ) → Option (ℤ × Caller) → Type 0
PteChange c others pgn f result =
    (c' : Caller) × (result ≡ some (success, c'))
    × ArePaged (tables c') (c.mm.pgd ∷ others)
    × Changed (tables c) (tables c') c.mm.pgd pgn (f (entry (tables c) c.mm.pgd pgn))
        (c.mm.pgd ∷ others)
    × (rest c' ≡ rest c)

module _ (malloc : Malloc) where
  -- A walk that gives NULL has met a `malloc` that gives NULL.
  abbrev NullIsFull : Option (Option ℕ × Caller) → Type 0
  NullIsFull none = Unit
  NullIsFull (some (none, c)) = malloc (tables c) ≡ none
  NullIsFull (some (some x, c)) = Unit

  next_table_null : (at i : ℕ) (c : Caller) → NullIsFull (next_table malloc at i c)
  unfolding next_table
  next_table_null at i c = elim (Option-cases (c.machine.tables at)) [
    | inl e ↦ rw (e, next_table) tt
    | inr (table, here) ↦ elim (Bool-cases (table i == 0)) [
      | inl e ↦ elim (Option-cases (malloc c.machine.tables)) [
        | inl full ↦ rw (here, next_table, e, full) full
        | inr (new, got) ↦ rw (here, next_table, e, got) tt
      ]
      | inr e ↦ rw (here, next_table, e) tt
    ]
  ]

  walk_null : (is : List ℕ) (at : ℕ) (c : Caller) → NullIsFull (walk malloc at is c)
  unfolding walk
  walk_null [] at c = tt
  walk_null (i ∷ is) at c = step (next_table malloc at i c) (next_table_null at i c) (walk_null is)
    where
      step :
          (r : Option (Option ℕ × Caller))
          → NullIsFull r
          → ((at' : ℕ) (c' : Caller) → NullIsFull (walk malloc at' is c'))
          → NullIsFull (elim r [
            | none ↦ none
            | some (none, c') ↦ some (none, c')
            | some (some next, c') ↦ walk malloc next is c'
          ])
      step none h ih = tt
      step (some (none, c')) h ih = h
      step (some (some next, c')) h ih = ih next c'

  -- The walk to a page's entry gives NULL, and there is no memory for a table.
  abbrev pub OutOfMemory : Caller → ℕ → Type 0
  OutOfMemory c pgn =
      (c' : Caller) × (pte_travelling malloc (page_address pgn) c ≡ some (none, c'))
      × (malloc (tables c') ≡ none)

  Changed-trans :
      (t t' t'' : Tables) (root p v : ℕ) (roots : List ℕ)
      → SameEntries t t' roots
      → Changed t' t'' root p v roots
      → Changed t t'' root p v roots
  Changed-trans t t' t'' root p v [] h h' = tt
  Changed-trans t t' t'' root p v (r ∷ rs) (h, hs) (h', hs') = (
    (λ q. h' q ∙ ap (λ (w : ℕ). if (r == root) && same_page q p then v else w) (h q)),
    Changed-trans t t' t'' root p v rs hs hs',
  )

  module _ (ok : IsMalloc malloc) where
    -- A function that writes the entry of a page, as some `f` of the entry before, is a fault exactly
    -- where the walk to the entry gives NULL, for lack of memory for a table. Else it succeeds.
    pub pte_change_lem :
        (c : Caller) (others : List ℕ) (pgn : ℕ) (f : ℕ → ℕ)
        → ArePaged (tables c) (c.mm.pgd ∷ others)
        → ((pte_change malloc pgn f c ≡ none) × OutOfMemory c pgn)
          ⊎ PteChange c others pgn f (pte_change malloc pgn f c)
    unfolding pte_change pte_travelling change_entry
    pte_change_lem c others pgn f (o, tr, ((live, own), roots)) = found (
        walk_lem malloc ok (path (indices pgn)) o (count_access c) c.mm.pgd tr live
          (omega (arith, ap length own)))
      where
        found :
            WalkEnds malloc ok (path (indices pgn)) o (count_access c) c.mm.pgd
            → ((pte_change malloc pgn f c ≡ none) × OutOfMemory c pgn)
              ⊎ PteChange c others pgn f (pte_change malloc pgn f c)
        found (none, c', e, w) = inl (
          rw (e, pte_change) refl,
          (c', e, subst NullIsFull e (walk_null (path (indices pgn)) c.mm.pgd (count_access c))),
        )
        found (some x, c', e, w) =
            let (all, entries) =
              roots-Grown o w.owner (tables c) (tables c') (c.mm.pgd ∷ others) w.grown
                ((live, own), roots) in
            let ((live', own'), roots') = all in
            let (leads, (table, there), owned) = w.ended in
            let was : entry (tables c) c.mm.pgd pgn ≡ table (entry_index pgn) =
              sym (entries.0 pgn)
              ∙ Leads-value (tables c') (path (indices pgn)) c.mm.pgd x (entry_index pgn) table
                  leads there in
            let v : ℕ = f (table (entry_index pgn)) in
            let (all', changed) =
              store-Changed w.owner (tables c') w.grown.tree c.mm.pgd pgn x v table own' live' leads
                there owned (c.mm.pgd ∷ others) all in
            let t'' : Tables = update (tables c') x (some (update table (entry_index pgn) v)) in
            let c'' : Caller = record c' { machine = record (c'.machine) { tables = t'' } } in
            let stores : change_entry x (entry_index pgn) f c' ≡ some (success, c'') =
              rw (there, change_entry) refl in
            let result : pte_change malloc pgn f c ≡ some (success, c'') =
              rw (e, pte_change) stores in
            inr (
              c'',
              result,
              (
                w.owner,
                stored-IsTree w.owner (tables c') w.grown.tree x (entry_index pgn) v table there (
                    last w.owner (tables c') w.grown.tree c.mm.pgd pgn x v table own' live' leads
                      there owned),
                all',
              ),
              subst (λ (b : ℕ). Changed (tables c) t'' c.mm.pgd pgn (f b) (c.mm.pgd ∷ others))
                  (sym was)
                  (Changed-trans (tables c) (tables c') t'' c.mm.pgd pgn v (c.mm.pgd ∷ others)
                    entries changed),
              w.same,
            )
