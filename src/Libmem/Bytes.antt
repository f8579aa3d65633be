-- ===== src/Libmem/Bytes.antt =====
-- What libread and libwrite of src/libmem.c do to memory.
use os_lamina_atrium.Base.{
  ℕ, ◌+◌, ◌≡◌, refl, sym, ap, subst, ◌∙◌, inl, inr, List, [], ◌∷◌, Option, none, some, ◌==◌,
  Bool-cases, Option-cases, ℤ, pos, negsuc, true, success, failure,
}
use os_lamina_atrium.Words.{int_to_addr, u32}
use os_lamina_atrium.Memphy.{get_freefp}
use os_lamina_atrium.Mm.{Region, VmArea, Tables, Caller, Malloc}
use os_lamina_atrium.Pages.{enlist_pgn_node, find_victim_page}
use os_lamina_atrium.Paging.Pte.{paging_page_present, paging_fpn}
use os_lamina_atrium.Paging.Table.{pte_get_entry}
use os_lamina_atrium.Paging.Table.Walk.{IsMalloc, Rest, tables}
use os_lamina_atrium.Paging.Table.Map.{entry, ArePaged, SameEntries, pte_get_entry_lem}
use os_lamina_atrium.Vm.{find_area}
use os_lamina_atrium.Libmem.{get_symrg_byid}
use os_lamina_atrium.Libmem.Access.{
  bring_in, page_frame, pg_getpage, paging_pgn, pg_getval, pg_setval, read, libread, write,
  libwrite,
}

-- RAM has the bytes and the free frames that it had, and every page its entry.
pub record Unchanged (root : ℕ) (others : List ℕ) (c c' : Caller) : Type 0 where
  pub same_root : c'.mm.pgd ≡ root
  pub same_ram : c'.machine.mram ≡ c.machine.mram
  pub paged : ArePaged (tables c') (root ∷ others)
  pub same_entries : SameEntries (tables c) (tables c') (root ∷ others)

SameEntries-refl : (t : Tables) (roots : List ℕ) → SameEntries t t roots
SameEntries-refl t [] = tt
SameEntries-refl t (r ∷ rs) = (λ q. refl, SameEntries-refl t rs)

SameEntries-trans :
    (t t' t'' : Tables) (roots : List ℕ)
    → SameEntries t t' roots
    → SameEntries t' t'' roots
    → SameEntries t t'' roots
SameEntries-trans t t' t'' [] h k = tt
SameEntries-trans t t' t'' (r ∷ rs) (h, hs) (k, ks) =
    (λ q. k q ∙ h q, SameEntries-trans t t' t'' rs hs ks)

module _ (malloc : Malloc) (ok : IsMalloc malloc) (root : ℕ) (others : List ℕ) where
  Unchanged-trans :
      (c c' c'' : Caller)
      → Unchanged root others c c'
      → Unchanged root others c' c''
      → Unchanged root others c c''
  Unchanged-trans c c' c'' h k = record {
    same_root = k.same_root;
    same_ram = k.same_ram ∙ h.same_ram;
    paged = k.paged;
    same_entries =
        SameEntries-trans (tables c) (tables c') (tables c'') (root ∷ others) h.same_entries
          k.same_entries;
  }

  pte_get_entry-Unchanged :
      (pgn : ℕ) (c : Caller)
      → c.mm.pgd ≡ root
      → ArePaged (tables c) (root ∷ others)
      → (v : ℕ) × (c' : Caller) × (pte_get_entry malloc pgn c ≡ some (v, c'))
        × Unchanged root others c c'
  pte_get_entry-Unchanged pgn c at paged =
      let (c', e, paged', same, rests) =
        pte_get_entry_lem malloc ok c others pgn
          (subst (λ (r : ℕ). ArePaged (tables c) (r ∷ others)) (sym at) paged) in
      (
        u32 (entry (tables c) c.mm.pgd pgn),
        c',
        e,
        record {
          same_root = ap (λ (x : Rest). x.pgd) rests ∙ at;
          same_ram = ap (λ (x : Rest). x.mram) rests;
          paged = subst (λ (r : ℕ). ArePaged (tables c') (r ∷ others)) at paged';
          same_entries = subst (λ (r : ℕ). SameEntries (tables c) (tables c') (r ∷ others)) at same;
        },
      )

  same_tables :
      (c c' : Caller)
      → c'.mm.pgd ≡ root
      → c'.machine.mram ≡ c.machine.mram
      → tables c ≡ tables c'
      → ArePaged (tables c) (root ∷ others)
      → Unchanged root others c c'
  same_tables c c' at ram same paged = record {
    same_root = at;
    same_ram = ram;
    paged = subst (λ (t : Tables). ArePaged t (root ∷ others)) same paged;
    same_entries =
        subst (λ (t : Tables). SameEntries (tables c) t (root ∷ others)) same
          (SameEntries-refl (tables c) (root ∷ others));
  }

  bring_in-Unchanged :
      (pgn : ℕ) (c : Caller)
      → c.mm.pgd ≡ root
      → ArePaged (tables c) (root ∷ others)
      → (r : ℤ) × (c' : Caller) × (bring_in pgn c ≡ some (r, c')) × Unchanged root others c c'
  unfolding bring_in
  bring_in-Unchanged pgn c at paged = elim (Option-cases (find_victim_page c.mm.fifo_pgn)) [
    | inl e ↦ (failure, c, rw (bring_in, e) refl, same_tables _ _ at refl refl paged)
    | inr ((vicpgn, kept), e) ↦ elim (Option-cases (get_freefp c.machine.active_mswp)) [
      | inl e' ↦ (
        failure,
        record c { mm = record (c.mm) { fifo_pgn = kept } },
        rw (bring_in, e, e') refl,
        same_tables _ _ at refl refl paged,
      )
      | inr ((swpfpn, mswp), e') ↦ (
        success,
        record {
          mm = record (c.mm) { fifo_pgn = (enlist_pgn_node kept pgn).1 };
          machine = record (c.machine) { active_mswp = mswp };
        },
        rw (bring_in, e, e') refl,
        same_tables _ _ at refl refl paged,
      )
    ]
  ]

  page_frame-Unchanged :
      (pgn : ℕ) (c : Caller)
      → c.mm.pgd ≡ root
      → ArePaged (tables c) (root ∷ others)
      → (v : ℕ) × (c' : Caller) × (page_frame malloc pgn c ≡ some (some v, c'))
        × Unchanged root others c c'
  unfolding page_frame
  page_frame-Unchanged pgn c at paged =
      let (pte, c', e, u) = pte_get_entry-Unchanged (int_to_addr pgn) c at paged in
      (paging_fpn pte, c', rw (page_frame, e) refl, u)

  -- A page is got, or not, without a fault.
  pg_getpage-Unchanged :
      (pgn : ℕ) (c : Caller)
      → c.mm.pgd ≡ root
      → ArePaged (tables c) (root ∷ others)
      → (r : Option ℕ) × (c' : Caller) × (pg_getpage malloc pgn c ≡ some (r, c'))
        × Unchanged root others c c'
  unfolding pg_getpage
  pg_getpage-Unchanged pgn c at paged =
      let (pte, c', e, u) = pte_get_entry-Unchanged (int_to_addr pgn) c at paged in
      elim (Bool-cases (paging_page_present pte == 0)) [
        | inr present ↦
            let (v, c'', e', u') = page_frame-Unchanged pgn c' u.same_root u.paged in
            (some v, c'', rw (pg_getpage, e, present) e', Unchanged-trans c c' c'' u u')
        | inl absent ↦
            let (r, c'', e', u') = bring_in-Unchanged (int_to_addr pgn) c' u.same_root u.paged in
            let both = Unchanged-trans c c' c'' u u' in
            brought r c'' e' both (page_frame-Unchanged pgn c'' both.same_root both.paged) pte e
              absent
      ]
    where
      brought :
          (r : ℤ) (c'' : Caller)
          → {c' : Caller} → bring_in (int_to_addr pgn) c' ≡ some (r, c'')
          → Unchanged root others c c''
          → ((v : ℕ) × (d : Caller) × (page_frame malloc pgn c'' ≡ some (some v, d))
              × Unchanged root others c'' d)
          → (pte : ℕ) → pte_get_entry malloc (int_to_addr pgn) c ≡ some (pte, c')
          → (paging_page_present pte == 0) ≡ true
          → (r : Option ℕ) × (d : Caller) × (pg_getpage malloc pgn c ≡ some (r, d))
            × Unchanged root others c d
      brought (negsuc k) c'' e' u f pte e absent =
          (none, c'', rw (pg_getpage, e, absent, e') refl, u)
      brought (pos k) c'' e' u (v, d, f, u') pte e absent =
          (some v, d, rw (pg_getpage, e, absent, e') f, Unchanged-trans c c'' d u u')

  -- An access to a byte ends, with either result.
  Accessed : Caller → Option (ℤ × Caller) → Type 0
  Accessed c result = (r : ℤ) × (c' : Caller) × (result ≡ some (r, c')) × Unchanged root others c c'

  pg_val-Unchanged :
      (addr : ℕ) (c : Caller)
      → c.mm.pgd ≡ root
      → ArePaged (tables c) (root ∷ others)
      → Accessed c (pg_getval malloc addr c) × Accessed c (pg_setval malloc addr c)
  unfolding pg_getval pg_setval Accessed
  pg_val-Unchanged addr c at paged = both (pg_getpage-Unchanged (paging_pgn addr) c at paged)
    where
      both :
          ((r : Option ℕ) × (c' : Caller) × (pg_getpage malloc (paging_pgn addr) c ≡ some (r, c'))
            × Unchanged root others c c')
          → Accessed c (pg_getval malloc addr c) × Accessed c (pg_setval malloc addr c)
      both (none, c', e, u) =
          ((failure, c', rw (pg_getval, e) refl, u), (failure, c', rw (pg_setval, e) refl, u))
      both (some v, c', e, u) =
          ((success, c', rw (pg_getval, e) refl, u), (success, c', rw (pg_setval, e) refl, u))

-- A process accesses the byte at `offset` of a variable `rgid` in its table: `libwrite` and
-- `libread` both succeed, whether or not the page can be got. But `libwrite` stores nothing: RAM
-- has the bytes that it had. And `libread` gives as the byte what its local variable happened to
-- hold. No page of any process has another entry afterwards.
pub libwrite_stores_nothing :
    (malloc : Malloc) (ok : IsMalloc malloc) (others : List ℕ) (c : Caller) (rgid offset byte k : ℕ)
    (area : VmArea) (rg : Region)
    → find_area c.mm.mmap 0 ≡ some (some (k, area))
    → get_symrg_byid c.mm rgid ≡ some rg
    → ArePaged (tables c) (c.mm.pgd ∷ others)
    → ((c' : Caller) × (libwrite malloc rgid offset c ≡ some (success, c'))
        × Unchanged c.mm.pgd others c c')
      × ((c' : Caller) × (libread malloc byte rgid offset c ≡ some ((success, byte), c'))
          × Unchanged c.mm.pgd others c c')
unfolding libwrite libread write read Accessed
libwrite_stores_nothing malloc ok others c rgid offset byte k area rg found region paged =
    let (got, stored) =
      pg_val-Unchanged malloc ok c.mm.pgd others (u32 (rg.rg_start + offset)) c refl paged in
    let (r, c', e, u) = stored in
    let (r', c'', e', u') = got in
    (
      (c', rw (libwrite, write, found, region, e) refl, u),
      (c'', rw (libread, read, region, e') refl, u'),
    )
