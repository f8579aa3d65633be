-- ===== src/Vm/Grow.antt =====
-- What `inc_vma_limit` does when the frames run out.
use os_lamina_atrium.Base.{
  ℕ, ◌+◌, ◌*◌, ◌/◌, ◌%◌, ◌^◌, ◌≤◌, ◌<◌, ◌≡◌, refl, ap, ◌∙◌, true, false, List, [], ◌∷◌, Option,
  none, some, ◌==◌, ltb, leb, arith, length, get_elem?, set, ℤ, success,
}
use os_lamina_atrium.Words.{int_to_addr, u64, u32}
use os_lamina_atrium.Memphy.{frame_size}
use os_lamina_atrium.Mm.{Region, VmArea, Caller, Malloc}
use os_lamina_atrium.Paging.Addr.{page_size}
use os_lamina_atrium.Paging.Range.{vm_map_ram, alloc_pages_range, addr_failure, out_of_memory}
use os_lamina_atrium.Paging.Range.Frames.{with_free}
use os_lamina_atrium.Paging.Range.Ram.{frames_for}
use os_lamina_atrium.Vm.{
  vma_from, get_vma_by_num, get_vm_area_node_at_brk, validate_overlap_vm_area, overlaps_other,
  pages, page_align, change_area, reset_first, grow_area, inc_vma_limit,
}

-- A process with one area, whose heap ends at `sbrk`, asks for `amount` bytes, a multiple of the page
-- size.
pub record Extends (c : Caller) (area : VmArea) (amount : ℕ) : Type 0 where
  pub one_area : c.mm.mmap ≡ area ∷ []
  pub first : area.vm_id ≡ 0
  pub aligned : amount % page_size ≡ 0
  pub more : 0 < amount
  pub in_range : area.sbrk + amount < 2 ^ 31

-- It does so when fewer frames are free than pages are asked for.
pub record LacksFrames (c : Caller) (area : VmArea) (amount : ℕ) : Type 0 where
  pub extends : Extends c area amount
  pub too_few : length c.machine.mram.free_fp_list < amount / page_size

-- The RAM has no free frame any more.
abbrev pub drained : Caller → Caller
drained c = record c { machine = record (c.machine) { mram = with_free c.machine.mram [] } }

no_frames :
    (malloc : Malloc) (c : Caller) (s e n : ℕ)
    → s < e
    → e < 2 ^ 31
    → 0 < n
    → s + n * page_size ≤ e
    → length c.machine.mram.free_fp_list < n
    → vm_map_ram malloc s e s n c ≡ some (addr_failure, drained c)
unfolding vm_map_ram
no_frames malloc c s e n lt bound pos fits few =
    let short : leb n (length c.machine.mram.free_fp_list) ≡ false = ground arith in
    let frames : alloc_pages_range n c.machine.mram
        ≡ (out_of_memory, [], with_free c.machine.mram []) =
      frames_for n c.machine.mram (omega arith) ∙ rw short refl in
    let one : leb e s ≡ false = ground arith in
    let two : leb (2 ^ 31) n ≡ false = ground arith in
    let three : (n == 0) ≡ false = ground arith in
    let four : ltb s s ≡ false = ground arith in
    let product : int_to_addr (u32 (n * frame_size)) ≡ n * frame_size = ground arith in
    let five : ltb e (u64 (s + n * frame_size)) ≡ false = ground arith in
    rw (one, two, three, four, product, five, frames) refl

-- The first region of a list, if there is one, is all from `end` to `limit`; the others are as before.
abbrev pub first_spans : ℕ → ℕ → List Region → List Region
first_spans end limit [] = []
first_spans end limit (_ ∷ rest) = record { rg_start = end; rg_end = limit } ∷ rest

-- The area after its heap's end has been set.
abbrev pub grown : VmArea → ℕ → VmArea
grown area end = record area {
  sbrk = end;
  freerg_list = first_spans end area.vm_end area.freerg_list;
}

reset_first-first_spans :
    (area : VmArea) (end : ℕ) (l : List Region)
    → reset_first (record area { sbrk = end }) l ≡ first_spans end area.vm_end l
reset_first-first_spans area end [] = refl
reset_first-first_spans area end (_ ∷ rest) = refl

-- The process after the heap's end of its area has been set.
abbrev pub raised : Caller → VmArea → ℕ → Caller
raised c area amount = change_area c 0 (record area { sbrk = area.sbrk + amount })

align_same : (n : ℕ) → n % page_size ≡ 0 → n < 2 ^ 31 → u32 (page_align n) ≡ n
align_same n h small = omega arith

module _ (c : Caller) (area : VmArea) (alone : c.mm.mmap ≡ area ∷ []) where
  only_area : area.vm_id ≡ 0 → get_vma_by_num c.mm.mmap 0 ≡ some (some 0)
  unfolding get_vma_by_num vma_from
  only_area h = ap (λ (l : List VmArea). get_vma_by_num l 0) alone ∙ rw h refl

  first_place : get_elem? c.mm.mmap 0 ≡ some area
  first_place = ap (λ (l : List VmArea). get_elem? l 0) alone

  none_overlap : (s e : ℕ) → overlaps_other c.mm.mmap 0 0 s e ≡ false
  unfolding overlaps_other
  none_overlap s e = ap (λ (l : List VmArea). overlaps_other l 0 0 s e) alone

  node_is :
      area.vm_id ≡ 0
      → (amount : ℕ)
      → get_vm_area_node_at_brk true c.mm.mmap 0 amount
        ≡ some (some (record { rg_start = area.sbrk; rg_end = u64 (area.sbrk + amount) }))
  unfolding get_vm_area_node_at_brk
  node_is h amount = rw (get_vm_area_node_at_brk, only_area h, first_place) refl

  overlap_is :
      area.vm_id ≡ 0 → (s e : ℕ) → s < e → validate_overlap_vm_area c.mm.mmap 0 s e ≡ some success
  unfolding validate_overlap_vm_area
  overlap_is h s e lt =
      let ordered : leb e s ≡ false = ground arith in
      rw (validate_overlap_vm_area, ordered, only_area h, first_place, none_overlap s e) refl

end_is : (s n : ℕ) → s + n < 2 ^ 31 → u64 (s + int_to_addr n) ≡ s + n
end_is s n h = let small : ltb n (2 ^ 31) ≡ true = ground arith in rw small (omega arith)

start_is : (s : ℕ) → s < 2 ^ 31 → int_to_addr (u32 s) ≡ s
start_is s h =
    let same : u32 s ≡ s = omega arith in
    let low : ltb s (2 ^ 31) ≡ true = ground arith in rw (same, low) refl

pages_are : (n : ℕ) → n < 2 ^ 31 → pages n ≡ n / page_size
pages_are n h = let low : ltb n (2 ^ 31) ≡ true = ground arith in rw low refl

set_twice : (areas : List VmArea) (a b : VmArea) → set (set areas 0 a) 0 b ≡ set areas 0 b
set_twice [] a b = refl
set_twice (x ∷ areas) a b = refl

-- What is left to do once `vm_map_ram` is done, whatever its result
abbrev pub after_mapping : VmArea → ℕ → Option (ℕ × Caller) → Option (ℤ × Caller)
after_mapping area end none = none
after_mapping area end (some (_, c)) = some (success, change_area c 0 (grown area end))

grow_area-mapped :
    (malloc : Malloc) (c : Caller) (area : VmArea) (amount : ℕ) (r : Option (ℕ × Caller))
    → Extends c area amount
    → vm_map_ram malloc area.sbrk
        (area.sbrk + amount)
        area.sbrk
        (amount / page_size)
        (raised c area amount)
      ≡ r
    → grow_area malloc true 0 amount 0 area c ≡ after_mapping area (area.sbrk + amount) r
unfolding grow_area
grow_area-mapped malloc c area amount r l e = go r mapped
  where
    s : ℕ
    s = area.sbrk

    end : ℕ
    end = u64 (s + int_to_addr amount)

    end_same : end ≡ s + amount
    end_same = end_is s amount l.in_range

    mapped :
        vm_map_ram malloc s end
          (int_to_addr (u32 s))
          (pages amount)
          (change_area c 0 (record area { sbrk = end }))
        ≡ r
    mapped =
        ap
          (λ (x : ℕ).
            vm_map_ram malloc s x (int_to_addr (u32 s)) (pages amount)
              (change_area c 0 (record area { sbrk = x })))
          end_same
        ∙ ap (λ (m : ℕ). vm_map_ram malloc s (s + amount) m (pages amount) (raised c area amount))
            (start_is s (omega (arith, l.in_range)))
        ∙ ap (λ (n : ℕ). vm_map_ram malloc s (s + amount) s n (raised c area amount))
            (pages_are amount (omega (arith, l.in_range)))
        ∙ e

    go :
        (x : Option (ℕ × Caller))
        → vm_map_ram malloc s end
            (int_to_addr (u32 s))
            (pages amount)
            (change_area c 0 (record area { sbrk = end }))
          ≡ x
        → grow_area malloc true 0 amount 0 area c ≡ after_mapping area (s + amount) x
    go none h =
        rw
          (
            grow_area,
            node_is c area l.one_area l.first (int_to_addr amount),
            overlap_is c area l.one_area l.first s end (omega (arith, end_same, l.more)),
            h,
          )
          refl
    go (some (result, c')) h =
        rw
          (
            grow_area,
            node_is c area l.one_area l.first (int_to_addr amount),
            overlap_is c area l.one_area l.first s end (omega (arith, end_same, l.more)),
            h,
          )
          (ap
              (λ (l : List Region).
                some (success, change_area c' 0 (record area { sbrk = end; freerg_list = l })))
              (reset_first-first_spans area end area.freerg_list)
            ∙ ap (λ (x : ℕ). after_mapping area x (some (result, c'))) end_same)

-- `inc_vma_limit` comes to a call of `vm_map_ram` for the pages from the heap's end on.
pub inc_vma_limit-mapped :
    (malloc : Malloc) (c : Caller) (area : VmArea) (amount : ℕ)
    → Extends c area amount
    → inc_vma_limit malloc true 0 amount c
      ≡ after_mapping area (area.sbrk + amount) (
          vm_map_ram malloc area.sbrk
            (area.sbrk + amount)
            area.sbrk
            (amount / page_size)
            (raised c area amount))
unfolding inc_vma_limit
inc_vma_limit-mapped malloc c area amount l =
    rw (inc_vma_limit, only_area c area l.one_area l.first, first_place c area l.one_area)
      (ap (λ (n : ℕ). grow_area malloc true 0 n 0 area c)
          (align_same amount l.aligned (omega (arith, l.in_range)))
        ∙ grow_area-mapped malloc c area amount _ l refl)

-- `inc_vma_limit` of the one area of a process, by a multiple of the page size, succeeds although too
-- few frames are free: the heap's end goes up by that amount, the first free region, if there is one,
-- becomes all that lies above the new end, no page is mapped, and the frames that were free are lost.
pub inc_vma_limit_without_memory :
    (malloc : Malloc) (c : Caller) (area : VmArea) (amount : ℕ)
    → LacksFrames c area amount
    → inc_vma_limit malloc true 0 amount c
      ≡ some (success, change_area (drained c) 0 (grown area (area.sbrk + amount)))
inc_vma_limit_without_memory malloc c area amount l =
    inc_vma_limit-mapped malloc c area amount l.extends
    ∙ ap (after_mapping area (area.sbrk + amount)) (
        no_frames malloc (raised c area amount) area.sbrk (area.sbrk + amount) (amount / page_size)
          (omega (arith, l.extends.more)) l.extends.in_range
          (omega (arith, l.extends.aligned, l.extends.more)) (omega (arith, l.extends.aligned))
          l.too_few)
    ∙ ap put (
        set_twice c.mm.mmap (record area { sbrk = area.sbrk + amount })
          (grown area (area.sbrk + amount)))
  where
    put : List VmArea → Option (ℤ × Caller)
    put areas =
        some
          (success, record { mm = record (c.mm) { mmap = areas }; machine = (drained c).machine })
