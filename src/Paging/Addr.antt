-- ===== src/Paging/Addr.antt =====
-- The indices of an address in the five page directories (src/mm64.c, include/mm64.h).
pub mod Laws
use os_lamina_atrium.Base.{ℕ, ◌*◌, ◌/◌, ◌^◌, bit_and}
use os_lamina_atrium.Words.{u64, genmask64}

-- `PAGING64_PAGESZ` and `PAGING64_ADDR_PT_SHIFT`
abbrev pub page_size : ℕ
page_size = 4096

abbrev pub pt_shift : ℕ
pt_shift = 12

-- `PAGING64_ADDR_PGD_MASK` and so on
abbrev pgd_mask : ℕ
pgd_mask = genmask64 56 48

abbrev p4d_mask : ℕ
p4d_mask = genmask64 47 39

abbrev pud_mask : ℕ
pud_mask = genmask64 38 30

abbrev pmd_mask : ℕ
pmd_mask = genmask64 29 21

abbrev pt_mask : ℕ
pt_mask = genmask64 20 12

-- What `get_pd_from_address` writes through its five pointers.
pub record Indices : Type 0 where
  pub pgd : ℕ
  pub p4d : ℕ
  pub pud : ℕ
  pub pmd : ℕ
  pub pt : ℕ

unfoldable pub get_pd_from_address : ℕ → Indices
get_pd_from_address addr = record {
  pgd = bit_and addr pgd_mask / 2 ^ 48;
  p4d = bit_and addr p4d_mask / 2 ^ 39;
  pud = bit_and addr pud_mask / 2 ^ 30;
  pmd = bit_and addr pmd_mask / 2 ^ 21;
  pt = bit_and addr pt_mask / 2 ^ 12;
}

-- `pgn << PAGING64_ADDR_PT_SHIFT` of an `addr_t`
abbrev pub page_address : ℕ → ℕ
page_address pgn = u64 (pgn * 2 ^ pt_shift)

unfoldable pub get_pd_from_pagenum : ℕ → Indices
unfolding get_pd_from_address
get_pd_from_pagenum pgn = get_pd_from_address (page_address pgn)
