-- ===== src/Libmem/Extend.antt =====
-- `__alloc` of src/libmem.c where the area has to grow, through system call 17, `inc_vma_limit`, and
-- the mapping of the new pages.
use os_lamina_atrium.Base.{
  ℕ, ◌+◌, ◌/◌, ◌^◌, ◌≤◌, ◌<◌, ◌≡◌, refl, sym, ap, ◌∙◌, subst, ◌⊎◌, inl, inr, true, false, List, [],
  ◌∷◌, none, some, ltb, leb, if◌then◌else◌, arith, length, take, drop, set, All, Bool-cases,
  success,
}
use os_lamina_atrium.Words.{u64}
use os_lamina_atrium.Mm.{Region, VmArea, Caller, Malloc}
use os_lamina_atrium.Regions.{take_free, enlist_vm_freerg_list}
use os_lamina_atrium.Regions.Take.{IsShort}
use os_lamina_atrium.Paging.Addr.{page_size, pt_shift}
use os_lamina_atrium.Paging.Table.Walk.{IsMalloc, Rest, tables}
use os_lamina_atrium.Paging.Table.Map.{ArePaged}
use os_lamina_atrium.Paging.Range.Frames.{reversed}
use os_lamina_atrium.Paging.Range.Mapping.{RunsOut, Mapped}
use os_lamina_atrium.Paging.Range.Ram.{free_frames, frames_left}
use os_lamina_atrium.Vm.{change_area, inc_vma_limit, page_align}
use os_lamina_atrium.Vm.Grow.{Extends, raised, grown, first_spans}
use os_lamina_atrium.Vm.Extend.{inc_vma_limit_with_memory}
use os_lamina_atrium.Syscall.{ScRegs, inc_op, sys_memmap}
use os_lamina_atrium.Libmem.{enlist_free, alloc_at_brk, alloc}
use os_lamina_atrium.Libmem.Alloc.{Asks, allotted, none_fits-alloc}

-- The free regions after the growth: the rest of the last page, besides what `inc_vma_limit` leaves.
abbrev pub left_over : VmArea → ℕ → List Region
left_over area size =
    let end = area.sbrk + page_align size in
    let list = first_spans end area.vm_end area.freerg_list in
    if ltb size (page_align size)
    then (enlist_vm_freerg_list list (record { rg_start = area.sbrk + size; rg_end = end })).1
    else list

-- The process with its one area
abbrev with_area : Caller → VmArea → Caller
with_area c area = record c { mm = record (c.mm) { mmap = area ∷ [] } }

take_free-IsShort :
    (size : ℕ) (l : List Region)
    → All (λ rg. rg.rg_start + size < 2 ^ 64) l
    → All (IsShort size) l
    → take_free l size ≡ none
unfolding take_free
take_free-IsShort size [] h short = refl
take_free-IsShort size (rg ∷ l) (h, hs) (short, shorts) =
    let no_room : leb (u64 (rg.rg_start + size)) rg.rg_end ≡ false = ground (arith, h, short) in
    rw (take_free, no_room, take_free-IsShort size l hs shorts) refl

module _ (malloc : Malloc) (c : Caller) (area : VmArea) (rgid size : ℕ)
    (extends : Extends c area (page_align size)) (fits : area.sbrk + size ≤ area.vm_end)
    (small : size < 2 ^ 31) where
  end : ℕ
  end = area.sbrk + page_align size

  regs : ScRegs
  regs = record { a1 = inc_op; a2 = 0; a3 = page_align size }

  -- The call of the system, given what `inc_vma_limit` does
  called :
      (c1 : Caller)
      → inc_vma_limit malloc true 0 (page_align size) c ≡ some (success, c1)
      → sys_memmap malloc true true regs c ≡ some ((success, regs), c1)
  unfolding sys_memmap regs
  called c1 e = rw (sys_memmap, e) refl

  called_none :
      inc_vma_limit malloc true 0 (page_align size) c ≡ none
      → sys_memmap malloc true true regs c ≡ none
  unfolding sys_memmap regs
  called_none e = rw (sys_memmap, e) refl

  not_past : ltb area.vm_end (u64 (area.sbrk + size)) ≡ false
  not_past = ground (arith, extends.in_range, fits, small)

  grows_none :
      inc_vma_limit malloc true 0 (page_align size) c ≡ none
      → alloc_at_brk malloc true true 0 rgid size 0 area c ≡ none
  unfolding alloc_at_brk regs
  grows_none e = rw (alloc_at_brk, not_past, called_none e) refl

  -- What is left to do after the call
  grows :
      (c' : Caller)
      → rgid < length c'.mm.symrgtbl
      → inc_vma_limit malloc true 0 (page_align size) c
        ≡ some (success, with_area c' (grown area end))
      → alloc_at_brk malloc true true 0 rgid size 0 area c
        ≡ some (
          some area.sbrk,
          allotted c'
              (record area { sbrk = end })
              []
              rgid
              (record { rg_start = area.sbrk; rg_end = area.sbrk + size })
              (left_over area size),
        )
  unfolding alloc_at_brk regs end enlist_free
  grows c' in_table e =
      let stored : ltb rgid (length c'.mm.symrgtbl) ≡ true = ground (arith, in_table) in
      let up : u64 (area.sbrk + page_align size) ≡ area.sbrk + page_align size =
        omega (arith, extends.in_range, small) in
      let first : u64 (area.sbrk + size) ≡ area.sbrk + size =
        omega (arith, extends.in_range, small) in
      elim (Bool-cases (ltb size (page_align size))) [
        | inl more ↦
            rw
              (
                alloc_at_brk,
                not_past,
                called (with_area c' (grown area end)) e,
                stored,
                up,
                first,
                more,
              )
              refl
        | inr whole ↦
            rw
              (
                alloc_at_brk,
                not_past,
                called (with_area c' (grown area end)) e,
                stored,
                up,
                first,
                whole,
              )
              refl
      ]

module _ (malloc : Malloc) (ok : IsMalloc malloc) (others : List ℕ) where
  -- A process with one area asks for `size` bytes for a variable of its table, where every free
  -- region is too short, the area has room, and there are frames for the pages: unless the walk to
  -- one of the pages, after those before it are mapped, gives NULL for lack of memory for a table,
  -- which is a fault, the variable gets the bytes from the old end of the heap on, the end goes up
  -- by whole pages, the first free frames are mapped to those pages, the last of them first, and
  -- what is left of the last page is put on the free list, after the first free region, if there is
  -- one, has become all that lies above the new end.
  pub alloc_grows :
      (c : Caller) (area : VmArea) (rgid size : ℕ)
      → Asks c area [] rgid size
      → Extends c area (page_align size)
      → area.sbrk + size ≤ area.vm_end
      → All (IsShort size) area.freerg_list
      → page_align size / page_size ≤ length (free_frames c)
      → ArePaged (tables c) (c.mm.pgd ∷ others)
      → let amount = page_align size in
        let n = amount / page_size in
        let result = alloc malloc true true 0 rgid size c in
        ((result ≡ none)
          × RunsOut malloc
              (area.sbrk / 2 ^ pt_shift)
              (reversed (take n (free_frames c)) [])
              (frames_left (raised c area amount) (drop n (free_frames c))))
        ⊎ ((c' : Caller) × (result
              ≡ some (
                some area.sbrk,
                allotted c'
                    (record area { sbrk = area.sbrk + amount })
                    []
                    rgid
                    (record { rg_start = area.sbrk; rg_end = area.sbrk + size })
                    (left_over area size),
              ))
            × Mapped
                (frames_left (raised c area amount) (drop n (free_frames c)))
                others
                (area.sbrk / 2 ^ pt_shift)
                (reversed (take n (free_frames c)) [])
                c')
  unfolding end
  alloc_grows c area rgid size asks extends fits short enough paged =
      let small = asks.size_int in
      let at_brk =
        none_fits-alloc c area [] rgid size asks malloc true true
          (take_free-IsShort size area.freerg_list asks.no_wrap short) in
      elim (inc_vma_limit_with_memory malloc ok others c area (page_align size) extends enough
        paged) [
          | inl (fault, full) ↦
              inl (at_brk ∙ grows_none malloc c area rgid size extends fits small fault, full)
          | inr (c', e, m) ↦
              let area' : VmArea = record area { sbrk = area.sbrk + page_align size } in
              let areas : c'.mm.mmap ≡ set c.mm.mmap 0 area' = ap (λ (r : Rest). r.mmap) m.in_use in
              let alone : c'.mm.mmap ≡ area' ∷ [] =
                areas ∙ ap (λ (l : List VmArea). set l 0 area') asks.areas_are in
              let table : c'.mm.symrgtbl ≡ c.mm.symrgtbl = ap (λ (r : Rest). r.symrgtbl) m.in_use in
              let g = grown area (area.sbrk + page_align size) in
              let same : change_area c' 0 g ≡ with_area c' g =
                ap (λ (l : List VmArea). record c' { mm = record (c'.mm) { mmap = set l 0 g } })
                  alone in
              let in_table : rgid < length c'.mm.symrgtbl =
                subst (λ (l : List Region). rgid < length l) (sym table) asks.in_table in
              inr (
                c',
                at_brk
                    ∙ grows malloc c area rgid size extends fits small c' in_table
                        (e ∙ ap (λ (x : Caller). some (success, x)) same),
                m,
              )
        ]
