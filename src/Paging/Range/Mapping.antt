-- ===== src/Paging/Range/Mapping.antt =====
-- What `vmap_page_range` of src/mm64.c maps.
use os_lamina_atrium.Base.{
  ℕ, ◌+◌, ◌/◌, ◌^◌, ◌≤◌, ◌<◌, ◌≡◌, ◌≢◌, refl, sym, ap, subst, ◌∙◌, ◌⊎◌, inl, inr, true, List, [],
  ◌∷◌, none, some, ◌==◌, if◌then◌else◌, get_elem?, arith, length, All, success,
}
use os_lamina_atrium.Words.{u64, or_zero}
use os_lamina_atrium.Mm.{Caller, Malloc}
use os_lamina_atrium.Pages.{enlist_pgn_node}
use os_lamina_atrium.Paging.Addr.{pt_shift}
use os_lamina_atrium.Paging.Pte.{online_entry}
use os_lamina_atrium.Paging.Table.Walk.{IsMalloc, Rest, rest, tables}
use os_lamina_atrium.Paging.Table.Map.{entry, ArePaged}
use os_lamina_atrium.Paging.Table.Change.{OutOfMemory, Changed}
use os_lamina_atrium.Paging.Table.Sets.{pte_set_lem}
use os_lamina_atrium.Paging.Table.{pte_set_fpn}
use os_lamina_atrium.Paging.Range.{byte_count, multi_level_helper, map_frames, vmap_page_range}
use os_lamina_atrium.Paging.Range.Entries.{
  mapped, mapped-away, mapped-at, join-entries, same-entries, kept_elsewhere, Apart,
}

-- The list of pages in use after pages `p`, `p + 1` and so on have come into use
abbrev pub listed : List ℕ → ℕ → List ℕ → List ℕ
listed [] p list = list
listed (f ∷ fs) p list = listed fs (p + 1) (p ∷ list)

-- After `n` rounds of the loop: the entries of the processes with these first tables, the
-- list of pages in use, and nothing else but tables and statistics.
record Maps (c : Caller) (root : ℕ) (roots : List ℕ) (pgn : ℕ) (frames : List ℕ) (c' : Caller)
    : Type 0 where
  same_root : c'.mm.pgd ≡ root
  paged : ArePaged (tables c') roots
  entries :
      All
        (λ r.
          (q : ℕ)
          → entry (tables c') r q ≡ (
              if r == root
              then mapped frames pgn q (entry (tables c) r q)
              else entry (tables c) r q))
        roots
  pages : rest c' ≡ record (rest c) { fifo_pgn = listed frames pgn (c.mm.fifo_pgn) }

-- The process after one round
abbrev pub one_page : ℕ → Caller → Caller
one_page pgn c =
    let mm = multi_level_helper c.mm pgn in
    record c { mm = record mm { fifo_pgn = (enlist_pgn_node mm.fifo_pgn pgn).1 } }

-- The process comes, on its way through pages `pgn`, `pgn + 1` and so on, to one whose walk gives NULL
-- for lack of memory for a table, after each page before it has been given its frame.
pub data RunsOut (malloc : Malloc) : ℕ → List ℕ → Caller → Type 0 where
  at_once :
      {pgn f : ℕ} {frames : List ℕ} {c : Caller}
      → OutOfMemory malloc c pgn
      → RunsOut malloc pgn (f ∷ frames) c
  later :
      {pgn f : ℕ} {frames : List ℕ} {c c' : Caller}
      → pte_set_fpn malloc pgn f c ≡ some (success, c')
      → RunsOut malloc (pgn + 1) frames (one_page pgn c')
      → RunsOut malloc pgn (f ∷ frames) c

module _ (malloc : Malloc) (ok : IsMalloc malloc) (others : List ℕ) where
  map_frames_lem :
      (frames : List ℕ) (pgn : ℕ) (c : Caller) (root : ℕ)
      → c.mm.pgd ≡ root
      → pgn + length frames ≤ 2 ^ 45
      → ArePaged (tables c) (root ∷ others)
      → ((map_frames malloc (length frames) pgn frames c ≡ none) × RunsOut malloc pgn frames c)
        ⊎ ((c' : Caller) × (map_frames malloc (length frames) pgn frames c ≡ some (success, c'))
            × Maps c root (root ∷ others) pgn frames c')
  unfolding map_frames multi_level_helper enlist_pgn_node
  map_frames_lem [] pgn c root at h paged = inr (
    c,
    refl,
    record {
      same_root = at;
      paged = paged;
      entries = same-entries (tables c) root (root ∷ others);
      pages = refl;
    },
  )
  map_frames_lem (f ∷ frames) pgn c root at h paged =
      elim ((pte_set_lem malloc ok c others pgn
        (subst (λ (r : ℕ). ArePaged (tables c) (r ∷ others)) (sym at) paged) f 0 0 0).0) [
          | inl (e, (c', walked, full)) ↦ inl (rw (map_frames, e) refl, at_once (c', walked, full))
          | inr (c', e, paged', changed, same) ↦
              let root' : (one_page pgn c').mm.pgd ≡ root = ap (λ (x : Rest). x.pgd) same ∙ at in
              let next : u64 (pgn + 1) ≡ pgn + 1 = omega arith in
              elim (map_frames_lem frames (pgn + 1) (one_page pgn c') root root' (omega arith)
                (subst (λ (r : ℕ). ArePaged (tables c') (r ∷ others)) at paged')) [
                  | inl (e', full) ↦ inl (rw (map_frames, e, next, e') refl, later e full)
                  | inr (c'', e', m) ↦ inr (
                    c'',
                    rw (map_frames, e, next, e') refl,
                    record {
                      same_root = m.same_root;
                      paged = m.paged;
                      entries =
                          join-entries (tables c) (tables c') (tables c'') root pgn f frames
                            (root ∷ others)
                            (subst
                              (λ (r : ℕ).
                                Changed (tables c) (tables c') r pgn
                                  (online_entry (entry (tables c) r pgn) f) (r ∷ others))
                              at changed)
                            m.entries;
                      pages =
                          m.pages
                          ∙ ap
                              (λ (x : Rest). record x {
                                fifo_pgn = listed frames (pgn + 1) (pgn ∷ x.fifo_pgn);
                              })
                              same;
                    },
                  )
                ]
        ]

-- A range of pages from `pgn` on has been mapped to the frames.
pub record Mapped (c : Caller) (others : List ℕ) (pgn : ℕ) (frames : List ℕ) (c' : Caller)
    : Type 0 where
  -- The page at each place is present in the frame at that place.
  pub in_frames :
      (i f : ℕ)
      → get_elem? frames i ≡ some f
      → entry (tables c') c.mm.pgd (pgn + i) ≡ online_entry (entry (tables c) c.mm.pgd (pgn + i)) f
  -- Other pages of the process keep their entries.
  pub pages_kept :
      (q : ℕ)
      → Apart q pgn (length frames)
      → entry (tables c') c.mm.pgd q ≡ entry (tables c) c.mm.pgd q
  -- Other processes keep theirs.
  pub processes_kept :
      All (λ r. r ≢ c.mm.pgd → (q : ℕ) → entry (tables c') r q ≡ entry (tables c) r q) others
  pub still_paged : ArePaged (tables c') (c'.mm.pgd ∷ others)
  -- Of the rest, only the list of pages in use has changed.
  pub in_use : rest c' ≡ record (rest c) { fifo_pgn = listed frames pgn (c.mm.fifo_pgn) }

Maps-Mapped :
    (c : Caller) (others : List ℕ) (pgn : ℕ) (frames : List ℕ) (c' : Caller)
    → pgn + length frames ≤ 2 ^ 45
    → Maps c (c.mm.pgd) (c.mm.pgd ∷ others) pgn frames c'
    → Mapped c others pgn frames c'
Maps-Mapped c others pgn frames c' h m =
    let own : (c.mm.pgd == c.mm.pgd) ≡ true = ground arith in
    let (mine, theirs) = m.entries in
    record {
      in_frames = λ i f e.
          mine (pgn + i)
          ∙ rw (own)
              (mapped-at frames pgn (pgn + i) i f (entry (tables c) c.mm.pgd (pgn + i)) refl h e);
      pages_kept = λ q apart.
          mine q ∙ rw (own) (mapped-away frames pgn q (entry (tables c) c.mm.pgd q) apart);
      processes_kept = kept_elsewhere (tables c) (tables c') c.mm.pgd pgn frames others theirs;
      still_paged = subst (λ (r : ℕ). ArePaged (tables c') (r ∷ others)) (sym m.same_root) m.paged;
      in_use = m.pages;
    }

module _ (malloc : Malloc) (ok : IsMalloc malloc) (others : List ℕ) where
  -- A range of less than 2 ^ 31 pages whose numbers stay below 2 ^ 45 is mapped to as many frames,
  -- unless the walk to one of them, in turn, gives NULL for lack of memory, which is a fault. Each
  -- page is then present in its frame; every other page of the process, and every page of other
  -- processes, has the entry that it had; the pages come into use in their order; and the region
  -- returned spans them.
  pub vmap_page_range_lem :
      (addr : ℕ) (frames : List ℕ) (c : Caller)
      → addr / 2 ^ pt_shift + length frames ≤ 2 ^ 45
      → length frames < 2 ^ 31
      → ArePaged (tables c) (c.mm.pgd ∷ others)
      → ((vmap_page_range malloc addr (length frames) frames c ≡ none)
          × RunsOut malloc (addr / 2 ^ pt_shift) frames c)
        ⊎ ((c' : Caller) × (vmap_page_range malloc addr (length frames) frames c
              ≡ some (
                record { rg_start = addr; rg_end = u64 (addr + byte_count (length frames)) },
                c',
              ))
            × Mapped c others (addr / 2 ^ pt_shift) frames c')
  unfolding vmap_page_range
  vmap_page_range_lem addr frames c h few paged =
      let int : or_zero (length frames) ≡ length frames = ground arith in
      elim (map_frames_lem malloc ok others frames (addr / 2 ^ pt_shift) c (c.mm.pgd) refl h
        paged) [
          | inl (e, full) ↦ inl (rw (vmap_page_range, int, e) refl, full)
          | inr (c', e, m) ↦ inr (
            c',
            rw (vmap_page_range, int, e) refl,
            Maps-Mapped c others (addr / 2 ^ pt_shift) frames c' h m,
          )
        ]
