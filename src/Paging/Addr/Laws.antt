-- ===== src/Paging/Addr/Laws.antt =====
-- The five indices of an address as fields of its bits.
use os_lamina_atrium.Base.{
  ℕ, ◌+◌, ◌*◌, ◌/◌, ◌%◌, ◌^◌, ◌<◌, ◌≡◌, ◌↔◌, refl, sym, ap, ◌∙◌, bit_and, arith,
}
use os_lamina_atrium.Base.Bits.{field, bit_and-div, bit_and-ones}
use os_lamina_atrium.Paging.Addr.{
  Indices, pgd_mask, p4d_mask, pud_mask, pmd_mask, pt_mask, page_size, get_pd_from_address,
  get_pd_from_pagenum, page_address,
}

-- A mask of nine bits from bit `l` on, and a shift by `l`, take a field of nine bits.
mask_shift : (l mask a : ℕ) → mask / 2 ^ l ≡ 511 → bit_and a mask / 2 ^ l ≡ field a l 9
mask_shift l mask a e =
    bit_and-div l a mask ∙ ap (bit_and (a / 2 ^ l)) e ∙ bit_and-ones 9 (a / 2 ^ l)

abbrev fields : ℕ → Indices
fields a = record {
  pgd = field a 48 9;
  p4d = field a 39 9;
  pud = field a 30 9;
  pmd = field a 21 9;
  pt = field a 12 9;
}

pub get_pd_from_address-fields : (a : ℕ) → get_pd_from_address a ≡ fields a
unfolding get_pd_from_address
get_pd_from_address-fields a = λ i. record {
  pgd = mask_shift 48 pgd_mask a refl i;
  p4d = mask_shift 39 p4d_mask a refl i;
  pud = mask_shift 30 pud_mask a refl i;
  pmd = mask_shift 21 pmd_mask a refl i;
  pt = mask_shift 12 pt_mask a refl i;
}

-- The address that the five indices and an offset stand for.
abbrev pub to_address : Indices → ℕ → ℕ
to_address d offset =
    d.pgd * 2 ^ 48 + d.p4d * 2 ^ 39 + d.pud * 2 ^ 30 + d.pmd * 2 ^ 21 + d.pt * 2 ^ 12 + offset

-- Each of the five indices is below the size of a table.
pub record InTables (d : Indices) : Type 0 where
  pub pgd_in : d.pgd < 512
  pub p4d_in : d.p4d < 512
  pub pud_in : d.pud < 512
  pub pmd_in : d.pmd < 512
  pub pt_in : d.pt < 512

-- Every index of `get_pd_from_address` lies in its table, and the indices with the offset in the
-- page give the address back, less what stands above the 57 bits of the bus.
pub get_pd_from_address_lem :
    (a : ℕ)
    → InTables (get_pd_from_address a)
      × (to_address (get_pd_from_address a) (a % page_size) ≡ a % 2 ^ 57)
get_pd_from_address_lem a = rw (get_pd_from_address-fields a) (omega arith)

-- The indices of a page number are those of its 45 low bits.
fields_of_page : (p : ℕ) → fields (page_address p) ≡ fields (p % 2 ^ 45 * 2 ^ 12)
fields_of_page p =
    λ i. record { pgd = top i; p4d = fourth i; pud = upper i; pmd = middle i; pt = last i }
  where
    top : field (page_address p) 48 9 ≡ field (p % 2 ^ 45 * 2 ^ 12) 48 9
    top = omega arith

    fourth : field (page_address p) 39 9 ≡ field (p % 2 ^ 45 * 2 ^ 12) 39 9
    fourth = omega arith

    upper : field (page_address p) 30 9 ≡ field (p % 2 ^ 45 * 2 ^ 12) 30 9
    upper = omega arith

    middle : field (page_address p) 21 9 ≡ field (p % 2 ^ 45 * 2 ^ 12) 21 9
    middle = omega arith

    last : field (page_address p) 12 9 ≡ field (p % 2 ^ 45 * 2 ^ 12) 12 9
    last = omega arith

-- The page number that five indices stand for.
abbrev to_page : Indices → ℕ
to_page d = d.pgd * 2 ^ 36 + d.p4d * 2 ^ 27 + d.pud * 2 ^ 18 + d.pmd * 2 ^ 9 + d.pt

to_page-fields : (p : ℕ) → to_page (fields (p % 2 ^ 45 * 2 ^ 12)) ≡ p % 2 ^ 45
to_page-fields p = omega arith

get_pd_from_pagenum-fields : (p : ℕ) → get_pd_from_pagenum p ≡ fields (p % 2 ^ 45 * 2 ^ 12)
unfolding get_pd_from_pagenum
get_pd_from_pagenum-fields p = get_pd_from_address-fields (page_address p) ∙ fields_of_page p

-- Two page numbers have the same five indices exactly when they agree in their 45 low bits.
pub get_pd_from_pagenum_iff :
    (p q : ℕ) → (get_pd_from_pagenum p ≡ get_pd_from_pagenum q) ↔ (p % 2 ^ 45 ≡ q % 2 ^ 45)
get_pd_from_pagenum_iff p q =
    rw (get_pd_from_pagenum-fields p, get_pd_from_pagenum-fields q)
      (
        (λ e. sym (to_page-fields p) ∙ ap to_page e ∙ to_page-fields q),
        (λ e. ap (λ (n : ℕ). fields (n * 2 ^ 12)) e),
      )
