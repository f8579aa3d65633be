-- ===== src/Paging/Table/Map.antt =====
-- The five levels of directories as one map from page numbers to entries, for each process.
use os_lamina_atrium.Base.{
  ℕ, ◌%◌, ◌^◌, ◌≡◌, sym, ap, ◌∙◌, Bool, List, [], ◌∷◌, Option, none, some, ◌==◌, arith, length, All,
}
use os_lamina_atrium.Words.{u32}
use os_lamina_atrium.Mm.{Tables, Caller, Malloc}
use os_lamina_atrium.Paging.Addr.{Indices, get_pd_from_address, page_address}
use os_lamina_atrium.Paging.Table.{path, count_access, walk, entry_index, pte_get_entry}
use os_lamina_atrium.Paging.Table.Owner.{Owner, IsLive, IsTree, value, Grown}
use os_lamina_atrium.Paging.Table.Walk.{IsMalloc, rest, tables, Walked, walk_lem}
use os_lamina_atrium.Paging.Table.Store.{Leads-value}

abbrev pub indices : ℕ → Indices
indices pgn = get_pd_from_address (page_address pgn)

-- The entry of a page in the directories of the process whose first table is at `r`; 0 if the
-- directories have no place for it.
abbrev pub entry : Tables → ℕ → ℕ → ℕ
entry t r pgn = value t r (path (indices pgn)) (entry_index pgn)

-- The table at `r` is the first of a process.
abbrev pub IsRoot : Owner → Tables → ℕ → Type 0
IsRoot o t r = IsLive t r × (o r ≡ r ∷ [])

-- The directories of the processes with these first tables are trees, with no table in common.
abbrev pub ArePaged : Tables → List ℕ → Type 0
ArePaged t roots = (o : Owner) × IsTree o t × All (IsRoot o t) roots

-- Two page numbers have the same place in the directories.
abbrev pub same_page : ℕ → ℕ → Bool
same_page p q = p % 2 ^ 45 == q % 2 ^ 45

abbrev pub SameEntries : Tables → Tables → List ℕ → Type 0
SameEntries t t' roots = All (λ r. (pgn : ℕ) → entry t' r pgn ≡ entry t r pgn) roots

pub roots-Grown :
    (o o' : Owner) (t t' : Tables) (roots : List ℕ)
    → Grown o t o' t'
    → All (IsRoot o t) roots
    → All (IsRoot o' t') roots × SameEntries t t' roots
roots-Grown o o' t t' [] g h = (tt, tt)
roots-Grown o o' t t' (r ∷ rs) g ((live, own), h) =
    let (live', own') = g.lives r live in
    let (hs, es) = roots-Grown o o' t t' rs g h in
    (
      ((live', own' ∙ own), hs),
      (
        (λ pgn.
            g.values r (path (indices pgn)) (entry_index pgn) live (omega (arith, ap length own))),
        es,
      ),
    )

module _ (malloc : Malloc) (ok : IsMalloc malloc) where
  -- Reading an entry never faults. It gives the low 32 bits of the page's entry, 0 where there is
  -- none, also when there is no memory for a table on the way; no page of any process has another
  -- entry afterwards, and nothing but tables and statistics has changed.
  pub pte_get_entry_lem :
      (c : Caller) (others : List ℕ) (pgn : ℕ)
      → ArePaged (tables c) (c.mm.pgd ∷ others)
      → (c' : Caller) × (pte_get_entry malloc pgn c
          ≡ some (u32 (entry (tables c) c.mm.pgd pgn), c'))
        × ArePaged (tables c') (c.mm.pgd ∷ others)
        × SameEntries (tables c) (tables c') (c.mm.pgd ∷ others)
        × (rest c' ≡ rest c)
  unfolding pte_get_entry
  pte_get_entry_lem c others pgn (o, tr, ((live, own), roots)) = found (
      walk_lem malloc ok (path (indices pgn)) o (count_access c) c.mm.pgd tr live
        (omega (arith, ap length own)))
    where
      found :
          (result : Option ℕ) × (c' : Caller) × (walk malloc c.mm.pgd
                (path (indices pgn))
                (count_access c)
              ≡ some (result, c'))
            × Walked o (count_access c) c.mm.pgd (path (indices pgn)) result c'
          → (c' : Caller) × (pte_get_entry malloc pgn c
              ≡ some (u32 (entry (tables c) c.mm.pgd pgn), c'))
            × ArePaged (tables c') (c.mm.pgd ∷ others)
            × SameEntries (tables c) (tables c') (c.mm.pgd ∷ others)
            × (rest c' ≡ rest c)
      found (none, c', e, w) =
          let (roots', entries) =
            roots-Grown o w.owner (tables c) (tables c') (c.mm.pgd ∷ others) w.grown
              ((live, own), roots) in
          let nothing : entry (tables c) c.mm.pgd pgn ≡ 0 =
            sym (entries.0 pgn) ∙ w.ended (entry_index pgn) in
          let read : pte_get_entry malloc pgn c ≡ some (0, c') = rw (e, pte_get_entry) in
          (
            c',
            read ∙ ap (λ (v : ℕ). some (u32 v, c')) (sym nothing),
            (w.owner, w.grown.tree, roots'),
            entries,
            w.same,
          )
      found (some x, c', e, w) =
          let (roots', entries) =
            roots-Grown o w.owner (tables c) (tables c') (c.mm.pgd ∷ others) w.grown
              ((live, own), roots) in
          let (leads, (table, there), _) = w.ended in
          let there' : entry (tables c) c.mm.pgd pgn ≡ table (entry_index pgn) =
            sym (entries.0 pgn)
            ∙ Leads-value (tables c') (path (indices pgn)) c.mm.pgd x (entry_index pgn) table leads
                there in
          let read : pte_get_entry malloc pgn c ≡ some (u32 (table (entry_index pgn)), c') =
            rw (e, pte_get_entry, there) in
          (
            c',
            read ∙ ap (λ (v : ℕ). some (u32 v, c')) (sym there'),
            (w.owner, w.grown.tree, roots'),
            entries,
            w.same,
          )
