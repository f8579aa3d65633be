-- ===== src/Libmem.antt =====
-- src/libmem.c: the memory routines that a process's instructions call. One process at a time is
-- inside, under `mmvm_lock`. `node` tells whether there is memory for a region's descriptor, and
-- `listed` whether the process is in a list in which system call 17 looks for it.
pub mod Free
pub mod Access
pub mod Bytes
pub mod Alloc
pub mod Extend
pub mod Collect
use mathlib.Core.Option
use os_lamina_atrium.Base.{
  ℕ, ◌+◌, ◌^◌, ◌&&◌, ◌||◌, Bool, not, List, [], ◌∷◌, Option, none, some, ◌==◌, ltb, leb,
  if◌then◌else◌, get_elem?, set, length, ℤ, pos, negsuc, success, failure,
}
use os_lamina_atrium.Words.{int_to_addr, u64, u32}
use os_lamina_atrium.Mm.{Region, VmArea, Mm, Caller, M, Malloc}
use os_lamina_atrium.Regions.{find_free, enlist_vm_freerg_list, max_symtbl_sz}
use os_lamina_atrium.Vm.{get_vma_by_num, find_area, change_area, page_align}
use os_lamina_atrium.Syscall.{inc_op, sys_memmap}

-- The list of free regions of the first area gets `list`, the result of putting a region on it.
abbrev set_first_list : Caller → VmArea → List VmArea → List Region → Caller
set_first_list c area rest list = record c {
  mm = record (c.mm) { mmap = record area { freerg_list = list } ∷ rest };
}

-- `enlist_vm_freerg_list(caller->mm, rg)`, whose result is not looked at
unfoldable pub enlist_free : Region → Caller → Option Caller
unfolding enlist_vm_freerg_list
enlist_free rg c = elim c.mm.mmap [
  | [] ↦ if leb rg.rg_end rg.rg_start then some c else none
  | area ∷ rest ↦ some (set_first_list c area rest (enlist_vm_freerg_list area.freerg_list rg).1)
]

-- `get_symrg_byid`, where `none` is NULL
unfoldable pub get_symrg_byid : Mm → ℕ → Option Region
get_symrg_byid mm rgid =
    if leb (2 ^ 31) rgid || leb max_symtbl_sz rgid then none else get_elem? mm.symrgtbl rgid

-- A store to `symrgtbl[rgid]`; out of the array it is a fault.
abbrev set_symrg : ℕ → Region → Caller → Option Caller
set_symrg rgid rg c =
    if ltb rgid (length c.mm.symrgtbl)
    then some (record c { mm = record (c.mm) { symrgtbl = set c.mm.symrgtbl rgid rg } })
    else none

-- `get_free_vmrg_area`: the region, or `none` for the result -1. `size` comes as an `int`.
unfoldable pub get_free_vmrg_area : ℕ → ℕ → M (Option Region)
unfolding get_vma_by_num find_free
get_free_vmrg_area vmaid size c = elim (find_area c.mm.mmap vmaid) [
  | none ↦ none
  | some none ↦ none
  | some (some (k, area)) ↦
      let (found, left) = find_free area.freerg_list (int_to_addr (u32 size)) in
      some (found, change_area c k (record area { freerg_list = left }))
]

-- `__alloc` when no free region fits: the area in place `k` grows. The result is the address.
unfoldable pub alloc_at_brk :
    Malloc → (node listed : Bool) → (vmaid rgid size k : ℕ) → VmArea → M (Option ℕ)
unfolding sys_memmap enlist_free
alloc_at_brk malloc node listed vmaid rgid size k area c =
    let inc_sz = page_align size in
    let old_sbrk = area.sbrk in
    if ltb area.vm_end (u64 (old_sbrk + size))
    then some (none, c)
    else elim (sys_memmap malloc node listed (record { a1 = inc_op; a2 = vmaid; a3 = inc_sz }) c) [
      | none ↦ none
      | some ((negsuc _, _), c') ↦ some (none, c')
      | some ((pos _, _), c') ↦
          elim (set_symrg rgid (record { rg_start = old_sbrk; rg_end = u64 (old_sbrk + size) })
            c') [
              | none ↦ none
              | some c'' ↦ elim (get_elem? c''.mm.mmap k) [
                | none ↦ none
                | some area' ↦
                    let raised =
                      change_area c'' k (record area' { sbrk = u64 (old_sbrk + inc_sz) }) in
                    let remainder : Region = record {
                      rg_start = u64 (old_sbrk + size);
                      rg_end = u64 (old_sbrk + inc_sz);
                    } in
                    if ltb size inc_sz && node
                    then Option.map (λ c'''. (some old_sbrk, c''')) (enlist_free remainder raised)
                    else some (some old_sbrk, raised)
              ]
            ]
    ]

-- `__alloc`: the address of the region, or `none` for the result -1
unfoldable pub alloc : Malloc → (node listed : Bool) → (vmaid rgid size : ℕ) → M (Option ℕ)
unfolding alloc_at_brk get_free_vmrg_area
alloc malloc node listed vmaid rgid size c = elim (find_area c.mm.mmap vmaid) [
  | none ↦ none
  | some none ↦ some (none, c)
  | some (some (k, area)) ↦ elim (get_free_vmrg_area vmaid size c) [
    | none ↦ none
    | some (none, c') ↦ elim (get_elem? c'.mm.mmap k) [
      | none ↦ none
      | some area' ↦ alloc_at_brk malloc node listed vmaid rgid size k area' c'
    ]
    | some (some rg, c') ↦
        elim (set_symrg rgid (record { rg_start = rg.rg_start; rg_end = u64 (rg.rg_start + size) })
          c') [ none ↦ none | some c'' ↦ some (some rg.rg_start, c'') ]
  ]
]

-- `__free`; region 30 passes the first test, and then its descriptor is NULL.
unfoldable pub free : Bool → ℕ → M ℤ
unfolding get_symrg_byid enlist_free
free node rgid c =
    if leb (2 ^ 31) rgid || ltb max_symtbl_sz rgid
    then some (failure, c)
    else elim (get_symrg_byid c.mm rgid) [
      | none ↦ none
      | some rg ↦
          if (rg.rg_start == 0 && (rg.rg_end == 0)) || not node
          then some (failure, c)
          else elim (set_symrg rgid (record { rg_start = 0; rg_end = 0 }) c) [
            | none ↦ none
            | some c' ↦ Option.map (λ c''. (success, c'')) (enlist_free rg c')
          ]
    ]
