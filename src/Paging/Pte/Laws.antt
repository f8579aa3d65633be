-- ===== src/Paging/Pte/Laws.antt =====
-- The fields of an entry after each of the functions that write one.
use os_lamina_atrium.Base.{ℕ, ◌+◌, ◌*◌, ◌/◌, ◌%◌, ◌^◌, ◌≡◌, ◌≢◌, refl, sym, ap, ◌∙◌, arith, success}
use os_lamina_atrium.Base.Bits.{field, bit_and-div, bit_and-ones}
use os_lamina_atrium.Words.{u32, setbit, clrbit, setval}
use os_lamina_atrium.Paging.Pte.Masks.{
  and_covered, and_missed, or_missed, or_covered, setval_in, setval_out, setval_above,
}
use os_lamina_atrium.Paging.Pte.{
  present_mask, swapped_mask, dirty_mask, fpn_mask, swptyp_mask, swpoff_mask, paging_page_present,
  paging_fpn, paging_swp, online_entry, swapped_entry, init_pte,
}

-- `x & BIT(31)` is the bit at its place.
paging_page_present-field : (pte : ℕ) → paging_page_present pte ≡ field pte 31 1 * 2 ^ 31
unfolding paging_page_present
paging_page_present-field pte = omega (
  arith,
  bit_and-div 31 pte present_mask,
  bit_and-ones 1 (pte / 2 ^ 31),
  and_missed 0 31 pte present_mask refl,
)

pub paging_fpn-field : (pte : ℕ) → paging_fpn pte ≡ field pte 0 13
unfolding paging_fpn
paging_fpn-field pte = ap (λ (t : ℕ). t / 1) (bit_and-ones 13 pte) ∙ omega arith

pub paging_swp-field : (pte : ℕ) → paging_swp pte ≡ field pte 5 21
unfolding paging_swp
paging_swp-field pte = bit_and-div 5 pte swpoff_mask ∙ bit_and-ones 21 (pte / 2 ^ 5)

-- What every field of an entry reads after it has been mapped to a frame.
pub record IsOnline (old fpn entry : ℕ) : Type 0 where
  pub present : paging_page_present entry ≢ 0
  pub frame : paging_fpn entry ≡ fpn % 2 ^ 13
  pub not_swapped : field entry 30 1 ≡ 0
  pub kept : field entry 13 17 ≡ field old 13 17
  pub no_more : field entry 32 32 ≡ 0

-- `pte_set_fpn` makes an entry present and not swapped, with the frame's number in its 13 bits; it
-- keeps bits 13 to 29 and clears bits 32 to 63.
pub online_entry_lem : (pte fpn : ℕ) → IsOnline pte fpn (online_entry pte fpn)
unfolding online_entry
online_entry_lem pte fpn = record {
  present = rw (paging_page_present-field e, top) (omega arith);
  frame = paging_fpn-field e ∙ setval_in 0 13 v fpn fpn_mask refl refl ∙ omega arith;
  not_swapped = setval_out 30 1 v fpn fpn_mask 0 refl refl ∙ and_missed 30 1 u _ refl;
  kept =
      setval_out 13 17 v fpn fpn_mask 0 refl refl
      ∙ and_covered 13 17 u _ refl
      ∙ or_missed 13 17 pte present_mask refl;
  no_more = setval_above v fpn fpn_mask 0 refl;
}
  where
    u : ℕ
    u = setbit pte present_mask

    v : ℕ
    v = clrbit u swapped_mask

    e : ℕ
    e = setval v fpn fpn_mask 0

    top : field e 31 1 ≡ 1
    top =
        setval_out 31 1 v fpn fpn_mask 0 refl refl
        ∙ and_covered 31 1 u _ refl
        ∙ or_covered 31 pte present_mask refl

-- The low 32 bits of an entry have the same fields.
pub u32-IsOnline : (old fpn e : ℕ) → IsOnline old fpn e → IsOnline old fpn (u32 e)
u32-IsOnline old fpn e on = record {
  present =
      rw (paging_page_present-field (u32 e))
        (omega (arith, rw (paging_page_present-field e) at on.present));
  frame = paging_fpn-field (u32 e) ∙ omega arith ∙ sym (paging_fpn-field e) ∙ on.frame;
  not_swapped = omega (arith, on.not_swapped);
  kept = omega (arith, on.kept);
  no_more = omega arith;
}

-- What every field of an entry reads after its page has been swapped out.
pub record IsSwapped (old swptyp swpoff entry : ℕ) : Type 0 where
  pub present : paging_page_present entry ≢ 0
  pub swapped : field entry 30 1 ≡ 1
  pub typ : field entry 0 5 ≡ swptyp % 2 ^ 5
  pub offset : paging_swp entry ≡ swpoff % 2 ^ 21
  pub kept : field entry 26 4 ≡ field old 26 4
  pub no_more : field entry 32 32 ≡ 0

-- `pte_set_swap` marks an entry swapped, and present too, with the type in its 5 bits and the
-- offset in its 21 bits; it keeps bits 26 to 29 and clears bits 32 to 63.
pub swapped_entry_lem :
    (pte swptyp swpoff : ℕ) → IsSwapped pte swptyp swpoff (swapped_entry pte swptyp swpoff)
unfolding swapped_entry
swapped_entry_lem pte swptyp swpoff = record {
  present = rw (paging_page_present-field e, top) (omega arith);
  swapped =
      setval_out 30 1 w swpoff swpoff_mask 5 refl refl
      ∙ setval_out 30 1 v swptyp swptyp_mask 0 refl refl
      ∙ or_covered 30 u swapped_mask refl;
  typ =
      setval_out 0 5 w swpoff swpoff_mask 5 refl refl
      ∙ setval_in 0 5 v swptyp swptyp_mask refl refl
      ∙ omega arith;
  offset = paging_swp-field e ∙ setval_in 5 21 w swpoff swpoff_mask refl refl ∙ omega arith;
  kept =
      setval_out 26 4 w swpoff swpoff_mask 5 refl refl
      ∙ setval_out 26 4 v swptyp swptyp_mask 0 refl refl
      ∙ or_missed 26 4 u swapped_mask refl
      ∙ or_missed 26 4 pte present_mask refl;
  no_more = setval_above w swpoff swpoff_mask 5 refl;
}
  where
    u : ℕ
    u = setbit pte present_mask

    v : ℕ
    v = setbit u swapped_mask

    w : ℕ
    w = setval v swptyp swptyp_mask 0

    e : ℕ
    e = setval w swpoff swpoff_mask 5

    top : field e 31 1 ≡ 1
    top =
        setval_out 31 1 w swpoff swpoff_mask 5 refl refl
        ∙ setval_out 31 1 v swptyp swptyp_mask 0 refl refl
        ∙ or_missed 31 1 u swapped_mask refl
        ∙ or_covered 31 pte present_mask refl

-- An entry that `pte_set_swap` has written still passes the test for a present page, and the frame
-- number that is read from it is made of the swap type and the low bits of the swap offset.
pub swapped_entry_reads_as_frame :
    (pte swptyp swpoff : ℕ)
    → let entry = swapped_entry pte swptyp swpoff in
      (paging_page_present entry ≢ 0) × (paging_fpn entry ≡ swptyp % 2 ^ 5 + swpoff % 2 ^ 8 * 2 ^ 5)
swapped_entry_reads_as_frame pte swptyp swpoff = (
  s.present,
  rw (paging_fpn-field (swapped_entry pte swptyp swpoff))
      (omega (arith, s.typ, rw (paging_swp-field (swapped_entry pte swptyp swpoff)) at s.offset)),
)
  where
    s : IsSwapped pte swptyp swpoff (swapped_entry pte swptyp swpoff)
    s = swapped_entry_lem pte swptyp swpoff

-- `init_pte` of a present page in RAM, with a frame other than 0, succeeds and gives an entry that
-- is present, not swapped and not dirty, with the frame's number in its 13 bits.
pub init_pte_online :
    (pte pre fpn drt swp swptyp swpoff : ℕ)
    → pre ≢ 0
    → swp ≡ 0
    → fpn ≢ 0
    → let (result, entry) = init_pte pte pre fpn drt swp swptyp swpoff in
      (result ≡ success)
      × (paging_page_present entry ≢ 0)
      × (field entry 30 1 ≡ 0)
      × (field entry 28 1 ≡ 0)
      × (paging_fpn entry ≡ fpn % 2 ^ 13)
unfolding init_pte
init_pte_online pte pre fpn drt swp swptyp swpoff hp hs hf = ground (arith, fields_of_entry)
  where
    u : ℕ
    u = clrbit (setbit pte present_mask) swapped_mask

    v : ℕ
    v = clrbit u dirty_mask

    e : ℕ
    e = setval v fpn fpn_mask 0

    top : field e 31 1 ≡ 1
    top =
        setval_out 31 1 v fpn fpn_mask 0 refl refl
        ∙ and_covered 31 1 u _ refl
        ∙ and_covered 31 1 (setbit pte present_mask) _ refl
        ∙ or_covered 31 pte present_mask refl

    fields_of_entry :
        (paging_page_present e ≢ 0)
        × (field e 30 1 ≡ 0)
        × (field e 28 1 ≡ 0)
        × (paging_fpn e ≡ fpn % 2 ^ 13)
    fields_of_entry = (
      rw (paging_page_present-field e, top) (omega arith),
      setval_out 30 1 v fpn fpn_mask 0 refl refl
          ∙ and_covered 30 1 u _ refl
          ∙ and_missed 30 1 (setbit pte present_mask) _ refl,
      setval_out 28 1 v fpn fpn_mask 0 refl refl ∙ and_missed 28 1 u _ refl,
      paging_fpn-field e ∙ setval_in 0 13 v fpn fpn_mask refl refl ∙ omega arith,
    )
