-- ===== src/Paging/Pte.antt =====
-- The value of a page-table entry: the fields that include/mm.h lays out, and the functions of
-- src/mm64.c that compute a new entry from an old one. The walk that finds the entry is in Table.
mod Masks
pub mod Laws
use os_lamina_atrium.Base.{ℕ, ◌/◌, ◌^◌, ◌==◌, if◌then◌else◌, bit_and, ℤ, success, failure}
use os_lamina_atrium.Words.{bit, genmask, setbit, clrbit, setval, getval}

-- `PAGING_PTE_PRESENT_MASK`, `PAGING_PTE_SWAPPED_MASK`, `PAGING_PTE_DIRTY_MASK`
abbrev pub present_mask : ℕ
present_mask = bit 31

abbrev pub swapped_mask : ℕ
swapped_mask = bit 30

abbrev pub dirty_mask : ℕ
dirty_mask = bit 28

-- `PAGING_PTE_FPN_MASK`, `PAGING_PTE_SWPTYP_MASK`, `PAGING_PTE_SWPOFF_MASK` and their low bits
abbrev pub fpn_mask : ℕ
fpn_mask = genmask 12 0

abbrev pub swptyp_mask : ℕ
swptyp_mask = genmask 4 0

abbrev pub swpoff_mask : ℕ
swpoff_mask = genmask 25 5

abbrev pub fpn_lobit : ℕ
fpn_lobit = 0

abbrev pub swptyp_lobit : ℕ
swptyp_lobit = 0

abbrev pub swpoff_lobit : ℕ
swpoff_lobit = 5

-- `PAGING_PAGE_PRESENT(pte)`: 0 if the bit is clear
unfoldable pub paging_page_present : ℕ → ℕ
paging_page_present pte = bit_and pte present_mask

-- `PAGING_FPN(x)`
unfoldable pub paging_fpn : ℕ → ℕ
paging_fpn pte = getval pte fpn_mask fpn_lobit

-- `PAGING_SWP(pte)`
unfoldable pub paging_swp : ℕ → ℕ
paging_swp pte = bit_and pte swpoff_mask / 2 ^ 5

-- What `pte_set_fpn` leaves in the entry.
unfoldable pub online_entry : ℕ → ℕ → ℕ
online_entry pte fpn = setval (clrbit (setbit pte present_mask) swapped_mask) fpn fpn_mask fpn_lobit

-- What `pte_set_swap` leaves in the entry.
unfoldable pub swapped_entry : ℕ → ℕ → ℕ → ℕ
swapped_entry pte swptyp swpoff =
    setval (setval (setbit (setbit pte present_mask) swapped_mask) swptyp swptyp_mask swptyp_lobit)
      swpoff swpoff_mask swpoff_lobit

-- `init_pte`: the result, and the entry afterwards
unfoldable pub init_pte : (pte pre fpn drt swp swptyp swpoff : ℕ) → ℤ × ℕ
init_pte pte pre fpn drt swp swptyp swpoff =
    if pre == 0
    then (success, pte)
    else if swp == 0
    then if fpn == 0 then (failure, pte) else (
      success,
      setval (clrbit (clrbit (setbit pte present_mask) swapped_mask) dirty_mask) fpn fpn_mask
          fpn_lobit,
    )
    else (
      success,
      setval
          (setval (clrbit (setbit (setbit pte present_mask) swapped_mask) dirty_mask) swptyp
            swptyp_mask swptyp_lobit)
          swpoff swpoff_mask swpoff_lobit,
    )
