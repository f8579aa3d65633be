-- ===== src/Tests/Memory.antt =====
-- Free regions and the variables of a process.
use os_lamina_atrium.Base.{
  ℕ, ◌+◌, ◌≡◌, ◌⊎◌, All, refl, List, [], ◌∷◌, none, some, arith, replicate, success, true,
}
use os_lamina_atrium.Memphy.{Memphy}
use os_lamina_atrium.Mm.{Region, VmArea, Caller, Malloc}
use os_lamina_atrium.Regions.{enlist_vm_freerg_list}
use os_lamina_atrium.Regions.Laws.{inside, covered, IsSpaced, enlist_vm_freerg_list_lem}
use os_lamina_atrium.Regions.Take.{IsShort}
use os_lamina_atrium.Pages.{find_victim_page}
use os_lamina_atrium.Pages.Order.{enlist_all, find_victim_page_oldest}
use os_lamina_atrium.Vm.{change_area, inc_vma_limit}
use os_lamina_atrium.Vm.Grow.{drained, grown, inc_vma_limit_without_memory}
use os_lamina_atrium.Libmem.{alloc, alloc_at_brk, free}
use os_lamina_atrium.Libmem.Alloc.{Asks, allotted, alloc_lem}
use os_lamina_atrium.Libmem.Free.{IsVariable, Freed, free_lem}

abbrev region : ℕ → ℕ → Region
region s e = record { rg_start = s; rg_end = e }

abbrev two_free : List Region
two_free = region 100 200 ∷ region 300 400 ∷ []

enlist_vm_freerg_list_lem_example :
    ((enlist_vm_freerg_list two_free (region 200 300)).0 ≡ success)
    × IsSpaced 0 (enlist_vm_freerg_list two_free (region 200 300)).1
    × ((a : ℕ)
        → covered (enlist_vm_freerg_list two_free (region 200 300)).1 a
          ≡ inside (region 200 300) a + covered two_free a)
enlist_vm_freerg_list_lem_example =
    enlist_vm_freerg_list_lem two_free (region 200 300) (omega arith) (omega arith) (omega arith)

-- The three regions have become one.
enlist_merges : enlist_vm_freerg_list two_free (region 200 300) ≡ (success, region 100 400 ∷ [])
unfolding enlist_vm_freerg_list
enlist_merges = refl

find_victim_page_oldest_example :
    find_victim_page (enlist_all [] (4 ∷ 5 ∷ 6 ∷ [])) ≡ some (4, enlist_all [] (5 ∷ 6 ∷ []))
find_victim_page_oldest_example = find_victim_page_oldest 4 (5 ∷ 6 ∷ [])

abbrev heap : VmArea
heap = record { vm_id = 0; vm_start = 0; vm_end = 0x200000; sbrk = 4096; freerg_list = two_free }

abbrev no_device : Memphy
no_device = record { storage = []; maxsz = 0; rdmflg = 1; cursor = 0; free_fp_list = [] }

abbrev proc : Caller
proc = record {
  mm = record {
    pgd = 1;
    used_pgd = [];
    used_p4d = [];
    used_pud = [];
    used_pmd = [];
    used_pt = [];
    access_counter = 0;
    byte_counter = 0;
    mmap = heap ∷ [];
    symrgtbl = region 0 100 ∷ region 200 300 ∷ replicate 28 (region 0 0);
    fifo_pgn = [];
  };
  machine = record {
    tables = λ a. none;
    total_accesses = 0;
    total_storage_bytes = 0;
    mram = no_device;
    active_mswp = no_device;
  };
}

IsVariable-one : IsVariable proc heap [] 1 (region 200 300)
IsVariable-one = record { areas_are = refl; table_size = refl; region_is = refl }

free_lem_example : Freed proc heap [] 1 (region 200 300) (free true 1 proc)
free_lem_example =
    free_lem proc heap [] 1 (region 200 300) IsVariable-one (omega arith) (omega arith)
      (omega arith)

abbrev no_memory : Malloc
no_memory t = none

inc_vma_limit_without_memory_example :
    inc_vma_limit no_memory true 0 4096 proc
    ≡ some (success, change_area (drained proc) 0 (grown heap (4096 + 4096)))
inc_vma_limit_without_memory_example =
    inc_vma_limit_without_memory no_memory proc heap 4096 (record {
      extends = record {
        one_area = refl;
        first = refl;
        aligned = refl;
        more = omega arith;
        in_range = omega arith;
      };
      too_few = omega arith;
    })

asks : Asks proc heap [] 2 50
asks = record {
  areas_are = refl;
  first = refl;
  in_table = omega arith;
  some_bytes = omega arith;
  size_int = omega arith;
  no_wrap = (omega arith, (omega arith, tt));
}

alloc_lem_example :
    ((All (IsShort 50) two_free)
      × (alloc no_memory true true 0 2 50 proc
          ≡ alloc_at_brk no_memory true true 0 2 50 0 heap proc))
    ⊎ ((rg : Region) × (list : List Region) × (alloc no_memory true true 0 2 50 proc
          ≡ some (some rg.rg_start, allotted proc heap [] 2 rg list))
        × (rg.rg_end ≡ rg.rg_start + 50)
        × ((a : ℕ) → covered two_free a ≡ inside rg a + covered list a))
alloc_lem_example = alloc_lem proc heap [] 2 50 asks no_memory true true
