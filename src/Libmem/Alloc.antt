-- ===== src/Libmem/Alloc.antt =====
-- `__alloc` of src/libmem.c, as far as the list of free regions goes.
use mathlib.Core.Option
use os_lamina_atrium.Base.{
  ℕ, ◌+◌, ◌-◌, ◌^◌, ◌<◌, ◌≡◌, refl, sym, ap, ◌∙◌, ◌⊎◌, inl, inr, Bool, true, false, List, [], ◌∷◌,
  Option, none, some, ◌==◌, ltb, leb, arith, length, set, get_elem?, All, Bool-cases,
}
use os_lamina_atrium.Words.{int_to_addr, u64, u32}
use os_lamina_atrium.Mm.{Region, VmArea, Caller, Malloc}
use os_lamina_atrium.Regions.{take_free, find_free}
use os_lamina_atrium.Regions.Laws.{inside, covered}
use os_lamina_atrium.Regions.Take.{IsShort, Taken, take_free_lem}
use os_lamina_atrium.Vm.{vma_from, get_vma_by_num, find_area, change_area}
use os_lamina_atrium.Libmem.{get_free_vmrg_area, alloc_at_brk, alloc}

-- The process after the variable `rgid` has got the region, with the new list of its first area.
abbrev pub allotted : Caller → VmArea → List VmArea → ℕ → Region → List Region → Caller
allotted c area areas rgid rg list = record c {
  mm = record (c.mm) {
    symrgtbl = set c.mm.symrgtbl rgid rg;
    mmap = record area { freerg_list = list } ∷ areas;
  };
}

-- A process whose first area is the one that is asked for, which has no address near the end of the
-- address space, asks for `size` bytes for a variable of its table.
pub record Asks (c : Caller) (area : VmArea) (areas : List VmArea) (rgid size : ℕ) : Type 0 where
  pub areas_are : c.mm.mmap ≡ area ∷ areas
  pub first : area.vm_id ≡ 0
  pub in_table : rgid < length c.mm.symrgtbl
  pub some_bytes : 0 < size
  pub size_int : size < 2 ^ 31
  pub no_wrap : All (λ rg. rg.rg_start + size < 2 ^ 64) area.freerg_list

-- No address of the region taken wraps around.
abbrev FitsIn : ℕ → Option (Region × List Region) → Type 0
FitsIn size none = Unit
FitsIn size (some (taken, left)) = taken.rg_start + size < 2 ^ 64

FitsIn-later :
    (rg : Region) (size : ℕ) (found : Option (Region × List Region))
    → FitsIn size found
    → FitsIn size (Option.map (λ (taken, left). (taken, rg ∷ left)) found)
FitsIn-later rg size none h = tt
FitsIn-later rg size (some (taken, left)) h = h

take_free-FitsIn :
    (l : List Region) (size : ℕ)
    → All (λ rg. rg.rg_start + size < 2 ^ 64) l
    → FitsIn size (take_free l size)
unfolding take_free
take_free-FitsIn [] size h = tt
take_free-FitsIn (rg ∷ rest) size (small, h) =
    elim (Bool-cases (leb (u64 (rg.rg_start + size)) rg.rg_end)) [
      | inl e ↦ rw (take_free, e) small
      | inr e ↦
          rw (take_free, e)
            (FitsIn-later rg size (take_free rest size) (take_free-FitsIn rest size h))
    ]

first_found :
    (area : VmArea) (areas : List VmArea)
    → area.vm_id ≡ 0
    → find_area (area ∷ areas) 0 ≡ some (some (0, area))
unfolding get_vma_by_num vma_from
first_found area areas h = rw (get_vma_by_num, vma_from, h) refl

module _ (c : Caller) (area : VmArea) (areas : List VmArea) (rgid size : ℕ)
    (asks : Asks c area areas rgid size) where
  found : find_area c.mm.mmap 0 ≡ some (some (0, area))
  found = ap (λ (l : List VmArea). find_area l 0) asks.areas_are ∙ first_found area areas asks.first

  as_int : int_to_addr (u32 size) ≡ size
  as_int =
      let small = asks.size_int in
      let same : u32 size ≡ size = omega (arith, small) in
      let low : ltb size (2 ^ 31) ≡ true = ground (arith, small) in rw (same, low) refl

  -- The process with these areas
  with_areas : List VmArea → Caller
  with_areas l = record c { mm = record (c.mm) { mmap = l } }

  same_area : change_area c 0 area ≡ c
  unfolding with_areas
  same_area =
      ap with_areas (ap (λ (l : List VmArea). set l 0 area) asks.areas_are ∙ sym asks.areas_are)

  first_place : get_elem? c.mm.mmap 0 ≡ some area
  first_place = ap (λ (l : List VmArea). get_elem? l 0) asks.areas_are

  none_fits : take_free area.freerg_list size ≡ none → get_free_vmrg_area 0 size c ≡ some (none, c)
  unfolding get_free_vmrg_area find_free
  none_fits e =
      let no_region : Option Region = none in
      rw (get_free_vmrg_area, found, as_int, find_free, e)
        (ap (λ (x : Caller). some (no_region, x)) same_area)

  one_fits :
      (taken : Region) (left : List Region)
      → take_free area.freerg_list size ≡ some (taken, left)
      → taken.rg_start + size < 2 ^ 64
      → get_free_vmrg_area 0 size c
        ≡ some (some taken, change_area c 0 (record area { freerg_list = left }))
  unfolding get_free_vmrg_area find_free
  one_fits taken left e small =
      let some_bytes = asks.some_bytes in
      let valid : (taken.rg_start == 2 ^ 64 - 1) ≡ false = ground (arith, small, some_bytes) in
      rw (get_free_vmrg_area, found, as_int, find_free, e, valid) refl

  module _ (malloc : Malloc) (node listed : Bool) where
    pub none_fits-alloc :
        take_free area.freerg_list size ≡ none
        → alloc malloc node listed 0 rgid size c
          ≡ alloc_at_brk malloc node listed 0 rgid size 0 area c
    unfolding alloc
    none_fits-alloc e = rw (alloc, found, none_fits e, first_place) refl

    one_fits-alloc :
        (taken : Region) (left : List Region)
        → take_free area.freerg_list size ≡ some (taken, left)
        → taken.rg_start + size < 2 ^ 64
        → taken.rg_end ≡ taken.rg_start + size
        → alloc malloc node listed 0 rgid size c
          ≡ some (some taken.rg_start, allotted c area areas rgid taken left)
    unfolding alloc
    one_fits-alloc taken left e small end =
        let stored : ltb rgid (length c.mm.symrgtbl) ≡ true = ground (arith, asks.in_table) in
        let whole : u64 (taken.rg_start + size) ≡ taken.rg_end = omega (arith, small, end) in
        rw (alloc, found, one_fits taken left e small, stored, whole)
          (ap
            (λ (l : List VmArea). some (
              some taken.rg_start,
              record c {
                mm = record (c.mm) {
                  symrgtbl = set c.mm.symrgtbl rgid taken;
                  mmap = set l 0 (record area { freerg_list = left });
                };
              },
            ))
            asks.areas_are)

    -- A variable of the table is to get `size` bytes. If every free region is shorter, the area has
    -- to grow, from the state as it was. Else the variable gets a region of exactly `size` bytes,
    -- whose address is the result; what was free is that region and what is still free, each address
    -- as many times; nothing else changes, and no system call is made.
    pub alloc_lem :
        ((All (IsShort size) area.freerg_list)
          × (alloc malloc node listed 0 rgid size c
              ≡ alloc_at_brk malloc node listed 0 rgid size 0 area c))
        ⊎ ((rg : Region) × (list : List Region) × (alloc malloc node listed 0 rgid size c
              ≡ some (some rg.rg_start, allotted c area areas rgid rg list))
            × (rg.rg_end ≡ rg.rg_start + size)
            × ((a : ℕ) → covered area.freerg_list a ≡ inside rg a + covered list a))
    alloc_lem =
        go (take_free area.freerg_list size) refl (take_free_lem area.freerg_list size asks.no_wrap)
          (take_free-FitsIn area.freerg_list size asks.no_wrap)
      where
        go :
            (r : Option (Region × List Region))
            → take_free area.freerg_list size ≡ r
            → Taken area.freerg_list size r
            → FitsIn size r
            → ((All (IsShort size) area.freerg_list)
                × (alloc malloc node listed 0 rgid size c
                    ≡ alloc_at_brk malloc node listed 0 rgid size 0 area c))
              ⊎ ((rg : Region) × (list : List Region) × (alloc malloc node listed 0 rgid size c
                    ≡ some (some rg.rg_start, allotted c area areas rgid rg list))
                  × (rg.rg_end ≡ rg.rg_start + size)
                  × ((a : ℕ) → covered area.freerg_list a ≡ inside rg a + covered list a))
        go none e short small = inl (short, none_fits-alloc e)
        go (some (rg, list)) e (end, cover) small =
            inr (rg, list, one_fits-alloc rg list e small end, end, cover)
