-- ===== src/Vm.antt =====
-- src/mm-vm.c: the areas of a process and their growth. A pointer to an area is its place in the
-- list of areas. An `int` is its pattern of 32 bits.
pub mod Grow
pub mod Extend
use mathlib.Core.Option
use os_lamina_atrium.Base.{
  ℕ, ◌+◌, ◌-◌, ◌*◌, ◌/◌, ◌^◌, ◌&&◌, ◌||◌, Bool, false, not, List, [], ◌∷◌, Option, none, some, ◌==◌,
  ltb, leb, if◌then◌else◌, get_elem?, set, ℤ, pos, negsuc, success, failure,
}
use os_lamina_atrium.Words.{u64, u32, int_to_addr, div_round_up}
use os_lamina_atrium.Memphy.{swap_cp_page}
use os_lamina_atrium.Mm.{Region, VmArea, Caller, M, Malloc}
use os_lamina_atrium.Paging.Addr.{page_size}
use os_lamina_atrium.Paging.Range.{vm_map_ram}

-- `a < b` of two values of type `int`
abbrev pub int_ltb : ℕ → ℕ → Bool
int_ltb a b = ltb (u32 (a + 2 ^ 31)) (u32 (b + 2 ^ 31))

-- The loop of `get_vma_by_num`, at the area in place `k`: at the end of the list it is a fault.
unfoldable pub vma_from : List VmArea → ℕ → ℕ → Option ℕ
vma_from [] vmaid k = none
vma_from (area ∷ rest) vmaid k =
    let next = vma_from rest vmaid (k + 1) in
    if int_ltb (u32 area.vm_id) vmaid then next else some k

-- `none` inside is NULL.
unfoldable pub get_vma_by_num : List VmArea → ℕ → Option (Option ℕ)
unfolding vma_from
get_vma_by_num [] vmaid = some none
get_vma_by_num (area ∷ rest) vmaid = Option.map some (vma_from (area ∷ rest) vmaid 0)

-- `*area = f(*area)` for the area in place `k`
abbrev pub change_area : Caller → ℕ → VmArea → Caller
change_area c k area = record c { mm = record (c.mm) { mmap = set c.mm.mmap k area } }

-- `PAGING64_PAGE_ALIGNSZ(sz)`
abbrev pub page_align : ℕ → ℕ
page_align sz = div_round_up sz page_size * page_size

-- The area that the process with these areas finds by `vmaid`, and its place.
abbrev pub find_area : List VmArea → ℕ → Option (Option (ℕ × VmArea))
find_area mmap vmaid = elim (get_vma_by_num mmap vmaid) [
  | none ↦ none
  | some none ↦ some none
  | some (some k) ↦ some (Option.map (λ area. (k, area)) (get_elem? mmap k))
]

-- `get_vm_area_node_at_brk`, where `node` tells whether there is memory for the region
unfoldable pub get_vm_area_node_at_brk : Bool → List VmArea → ℕ → ℕ → Option (Option Region)
unfolding get_vma_by_num
get_vm_area_node_at_brk node mmap vmaid alignedsz = elim (find_area mmap vmaid) [
  | none ↦ none
  | some none ↦ some none
  | some (some (_, area)) ↦ some (
      if node
      then some (record { rg_start = area.sbrk; rg_end = u64 (area.sbrk + alignedsz) })
      else none)
]

-- `OVERLAP(x1, x2, y1, y2)`
abbrev pub overlap : (x1 x2 y1 y2 : ℕ) → Bool
overlap x1 x2 y1 y2 = ltb x1 y2 && ltb y1 x2

-- An area, other than the one in place `cur`, overlaps; the first one of the list has the place `k`.
unfoldable pub overlaps_other : List VmArea → ℕ → ℕ → ℕ → ℕ → Bool
overlaps_other [] cur k vmastart vmaend = false
overlaps_other (vma ∷ rest) cur k vmastart vmaend =
    (not (k == cur) && overlap vmastart vmaend vma.vm_start vma.vm_end)
    || overlaps_other rest cur (k + 1) vmastart vmaend

unfoldable pub validate_overlap_vm_area : List VmArea → ℕ → ℕ → ℕ → Option ℤ
unfolding get_vma_by_num overlaps_other
validate_overlap_vm_area mmap vmaid vmastart vmaend =
    if leb vmaend vmastart then some failure else elim (find_area mmap vmaid) [
      | none ↦ none
      | some none ↦ some failure
      | some (some (k, _)) ↦
          some (if overlaps_other mmap k 0 vmastart vmaend then failure else success)
    ]

-- The end of `inc_vma_limit`: the first region of the area's list becomes all above its `sbrk`.
abbrev pub reset_first : VmArea → List Region → List Region
reset_first area [] = []
reset_first area (first ∷ rest) = record { rg_start = area.sbrk; rg_end = area.vm_end } ∷ rest

-- `inc_amt / PAGING64_PAGESZ`, towards 0, of the pattern of an `int`
abbrev pub pages : ℕ → ℕ
pages amount =
    if ltb amount (2 ^ 31) then amount / page_size else u32 (2 ^ 32 - (2 ^ 32 - amount) / page_size)

-- `inc_vma_limit` once its area is found, in place `k`, and `amount`, an `int`, is to be added. The
-- result of `vm_map_ram` is of type `addr_t`, which is never below 0: it makes no difference.
unfoldable pub grow_area : Malloc → Bool → ℕ → ℕ → ℕ → VmArea → M ℤ
unfolding get_vm_area_node_at_brk validate_overlap_vm_area vm_map_ram
grow_area malloc node vmaid amount k area c =
    elim (get_vm_area_node_at_brk node c.mm.mmap vmaid (int_to_addr amount)) [
      | none ↦ none
      | some none ↦ some (failure, c)
      | some (some rg) ↦ elim (validate_overlap_vm_area c.mm.mmap vmaid rg.rg_start rg.rg_end) [
        | none ↦ none
        | some (negsuc _) ↦ some (failure, c)
        | some (pos _) ↦
            let raised : VmArea = record area { sbrk = u64 (area.sbrk + int_to_addr amount) } in
            elim (vm_map_ram malloc rg.rg_start rg.rg_end (int_to_addr (u32 area.sbrk))
              (pages amount) (change_area c k raised)) [
                | none ↦ none
                | some (_, c') ↦ some (
                  success,
                  change_area c' k
                      (record raised { freerg_list = reset_first raised raised.freerg_list }),
                )
              ]
      ]
    ]

unfoldable pub inc_vma_limit : Malloc → Bool → ℕ → ℕ → M ℤ
unfolding grow_area
inc_vma_limit malloc node vmaid inc_sz c = elim (find_area c.mm.mmap vmaid) [
  | none ↦ none
  | some none ↦ some (failure, c)
  | some (some (k, area)) ↦ grow_area malloc node vmaid (u32 (page_align inc_sz)) k area c
]

unfoldable pub mm_swap_page : ℕ → ℕ → M ℤ
unfolding swap_cp_page
mm_swap_page vicfpn swpfpn c =
    elim (swap_cp_page c.machine.mram vicfpn c.machine.active_mswp swpfpn) [
      | none ↦ none
      | some (mram, mswp) ↦
          some
            (success, record c { machine = record (c.machine) { mram = mram; active_mswp = mswp } })
    ]
