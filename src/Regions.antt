-- ===== src/Regions.antt =====
-- Lists of regions: the list of free regions of src/libmem.c and src/mm64.c, and the regions of the
-- symbol table. A list is ordered by its links; regions are values.
pub mod Laws
pub mod Take
use mathlib.Core.Option
use os_lamina_atrium.Base.{
  ℕ, ◌+◌, List, [], ◌∷◌, Option, none, some, ◌==◌, ltb, leb, ◌^◌, ◌-◌, if◌then◌else◌, ℤ, success,
  failure,
}
use os_lamina_atrium.Words.{u64}
use os_lamina_atrium.Mm.{Region}

-- `curr`, and the rest of the list: it is merged into `curr` as long as the next one is adjacent.
unfoldable pub coalesce_from : Region → List Region → List Region
coalesce_from curr [] = curr ∷ []
coalesce_from curr (next ∷ rest) =
    let merged = coalesce_from (record curr { rg_end = next.rg_end }) rest in
    let apart = coalesce_from next rest in
    if curr.rg_end == next.rg_start then merged else curr ∷ apart

unfoldable pub coalesce_freerg_list : List Region → List Region
unfolding coalesce_from
coalesce_freerg_list [] = []
coalesce_freerg_list (curr ∷ rest) = coalesce_from curr rest

unfoldable pub insert_sorted_freerg : List Region → Region → List Region
insert_sorted_freerg [] newrg = newrg ∷ []
insert_sorted_freerg (curr ∷ rest) newrg =
    let later = insert_sorted_freerg rest newrg in
    if ltb curr.rg_start newrg.rg_start then curr ∷ later else newrg ∷ curr ∷ rest

-- `enlist_vm_freerg_list`, of the list of the first area
unfoldable pub enlist_vm_freerg_list : List Region → Region → ℤ × List Region
unfolding insert_sorted_freerg coalesce_freerg_list
enlist_vm_freerg_list list rg_elmt =
    if leb rg_elmt.rg_end rg_elmt.rg_start
    then (failure, list)
    else (success, coalesce_freerg_list (insert_sorted_freerg list rg_elmt))

-- What is left of the list when `size` bytes of its first region are taken.
abbrev pub left_space : Region → List Region → ℕ → List Region
left_space rgit rest size =
    if ltb (u64 (rgit.rg_start + size)) rgit.rg_end
    then record rgit { rg_start = u64 (rgit.rg_start + size) } ∷ rest
    else elim rest [
      | [] ↦ record rgit { rg_start = rgit.rg_end } ∷ []
      | nextrg ∷ others ↦ nextrg ∷ others
    ]

-- The loop of `get_free_vmrg_area`: the region taken and the list left, or `none` if nothing fits.
unfoldable pub take_free : List Region → ℕ → Option (Region × List Region)
take_free [] size = none
take_free (rgit ∷ rest) size =
    let later = take_free rest size in
    if leb (u64 (rgit.rg_start + size)) rgit.rg_end
    then some (
      record { rg_start = rgit.rg_start; rg_end = u64 (rgit.rg_start + size) },
      left_space rgit rest size,
    )
    else Option.map (λ (taken, left). (taken, rgit ∷ left)) later

-- A region found at the address -1 counts as none, though it is taken out of the list.
unfoldable pub find_free : List Region → ℕ → Option Region × List Region
unfolding take_free
find_free list size = elim (take_free list size) [
  | none ↦ (none, list)
  | some (taken, left) ↦ (if taken.rg_start == 2 ^ 64 - 1 then none else some taken, left)
]

-- `PAGING_MAX_SYMTBL_SZ`
abbrev pub max_symtbl_sz : ℕ
max_symtbl_sz = 30

-- `init_vm_rg` and `enlist_vm_rg_node`
unfoldable pub init_vm_rg : ℕ → ℕ → Region
init_vm_rg rg_start rg_end = record { rg_start = rg_start; rg_end = rg_end }

unfoldable pub enlist_vm_rg_node : List Region → Region → ℤ × List Region
enlist_vm_rg_node rglist rgnode = (success, rgnode ∷ rglist)
