-- ===== src/Paging/Table/Sets.antt =====
-- The three functions that write an entry, and what a read of the entry then gives.
use os_lamina_atrium.Base.{
  ℕ, ◌%◌, ◌^◌, ◌≡◌, refl, sym, ap, subst, ◌∙◌, ◌&&◌, List, ◌∷◌, Option, none, some, ◌⊎◌, inl, inr,
  ◌==◌, if◌then◌else◌, ==_iff, ℤ, success,
}
use os_lamina_atrium.Words.{u32}
use os_lamina_atrium.Mm.{Caller, Malloc}
use os_lamina_atrium.Paging.Pte.{online_entry, swapped_entry}
use os_lamina_atrium.Paging.Pte.Laws.{IsOnline, online_entry_lem, u32-IsOnline}
use os_lamina_atrium.Paging.Table.{pte_set_fpn, pte_set_swap, pte_set_entry, pte_get_entry}
use os_lamina_atrium.Paging.Table.Walk.{IsMalloc, Rest, tables}
use os_lamina_atrium.Paging.Table.Map.{entry, ArePaged, same_page, pte_get_entry_lem}
use os_lamina_atrium.Paging.Table.Change.{OutOfMemory, PteChange, pte_change_lem}

module _ (malloc : Malloc) (ok : IsMalloc malloc) (c : Caller) (others : List ℕ) (pgn : ℕ)
    (paged : ArePaged (tables c) (c.mm.pgd ∷ others)) where
  abbrev pub old : ℕ
  old = entry (tables c) c.mm.pgd pgn

  -- A function that writes the entry of the page either meets a fault, exactly as the walk to the
  -- entry gives NULL, for lack of memory for a table, or changes the entry, and that only.
  abbrev pub Sets : (ℕ → ℕ) → Option (ℤ × Caller) → Type 0
  Sets f result = ((result ≡ none) × OutOfMemory malloc c pgn) ⊎ PteChange c others pgn f result

  -- Writing the entry of a page is a fault where the walk to the entry gives NULL, for lack of memory
  -- for a table; else it succeeds. Then that page of the process has the entry that the bits of the
  -- old one and of the arguments make, or, for `pte_set_entry`, the low 32 bits of the value;
  -- every other page of this process and of all others has the entry that it had, the directories
  -- still have no table in common, and nothing but tables and statistics has changed.
  pub pte_set_lem :
      (fpn swptyp swpoff pte_val : ℕ)
      → Sets (λ pte. online_entry pte fpn) (pte_set_fpn malloc pgn fpn c)
        × Sets (λ pte. swapped_entry pte swptyp swpoff) (pte_set_swap malloc pgn swptyp swpoff c)
        × Sets (λ pte. u32 pte_val) (pte_set_entry malloc pgn pte_val c)
  unfolding pte_set_fpn pte_set_swap pte_set_entry
  pte_set_lem fpn swptyp swpoff pte_val = (
    pte_change_lem malloc ok c others pgn (λ pte. online_entry pte fpn) paged,
    pte_change_lem malloc ok c others pgn (λ pte. swapped_entry pte swptyp swpoff) paged,
    pte_change_lem malloc ok c others pgn (λ pte. u32 pte_val) paged,
  )

  itself : (r p v w : ℕ) → (if (r == r) && same_page p p then v else w) ≡ v
  itself r p v w = rw ((==_iff r r).1 refl, (==_iff (p % 2 ^ 45) (p % 2 ^ 45)).1 refl) refl

  -- A page is given the frame `fpn`, which is a fault where the walk to its entry gives NULL, for
  -- lack of memory for a table. Else a read of its entry then gives a value that the tests of
  -- include/mm.h find present, and in the frame of the low 13 bits of `fpn`; its swapped bit, 30,
  -- is clear, its bits 13 to 29 are those of the old entry, and it has no bit past 31.
  pub pte_get_entry-pte_set_fpn :
      (fpn : ℕ)
      → ((pte_set_fpn malloc pgn fpn c ≡ none) × OutOfMemory malloc c pgn)
        ⊎ ((c' : Caller) × (c'' : Caller) × (value : ℕ) × (pte_set_fpn malloc pgn fpn c
              ≡ some (success, c'))
            × (pte_get_entry malloc pgn c' ≡ some (value, c''))
            × IsOnline old fpn value)
  pte_get_entry-pte_set_fpn fpn = elim ((pte_set_lem fpn 0 0 0).0) [
    | inl h ↦ inl h
    | inr (c', e, paged', changed, same) ↦
        let root : c'.mm.pgd ≡ c.mm.pgd = ap (λ (r : Rest). r.pgd) same in
        let (c'', got, _, _, _) =
          pte_get_entry_lem malloc ok c' others pgn
            (subst (λ (r : ℕ). ArePaged (tables c') (r ∷ others)) (sym root) paged') in
        let now : entry (tables c') c'.mm.pgd pgn ≡ online_entry old fpn =
          ap (λ (r : ℕ). entry (tables c') r pgn) root
          ∙ changed.0 pgn
          ∙ itself c.mm.pgd pgn (online_entry old fpn) old in
        inr (
          c',
          c'',
          u32 (online_entry old fpn),
          e,
          got ∙ ap (λ (v : ℕ). some (u32 v, c'')) now,
          u32-IsOnline old fpn (online_entry old fpn) (online_entry_lem old fpn),
        )
  ]
