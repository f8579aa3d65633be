-- ===== src/Paging/Range/Ram.antt =====
-- `vm_map_ram` of src/mm64.c: frames for a range of pages, and their mapping.
use os_lamina_atrium.Base.{
  ℕ, ◌+◌, ◌*◌, ◌/◌, ◌^◌, ◌≤◌, ◌<◌, ◌≡◌, refl, ap, subst, ◌∙◌, ◌⊎◌, inl, inr, ◌||◌, if◌then◌else◌,
  Bool, true, false, List, [], ◌∷◌, Option, none, some, ◌==◌, ltb, leb, take, drop, arith, length,
  length-take, Bool-cases, leb→le,
}
use os_lamina_atrium.Words.{u64, u32, int_to_addr}
use os_lamina_atrium.Memphy.{Memphy, frame_size}
use os_lamina_atrium.Mm.{Region, Caller, Malloc}
use os_lamina_atrium.Paging.Addr.{pt_shift}
use os_lamina_atrium.Paging.Table.Walk.{IsMalloc, tables}
use os_lamina_atrium.Paging.Table.Map.{ArePaged}
use os_lamina_atrium.Paging.Range.{
  vmap_page_range, vm_map_ram, addr_failure, out_of_memory, alloc_pages_range,
}
use os_lamina_atrium.Paging.Range.Frames.{reversed, with_free, alloc_pages_range_lem}
use os_lamina_atrium.Paging.Range.Mapping.{RunsOut, Mapped, vmap_page_range_lem}

length-reversed : (xs onto : List ℕ) → length (reversed xs onto) ≡ length xs + length onto
length-reversed [] onto = omega arith
length-reversed (x ∷ xs) onto = omega (arith, length-reversed xs (x ∷ onto))

-- The range of `n` pages from `mapstart` on does not lie in the area, or there is none. The number of
-- bytes is an `int`, which wraps around from 2 ^ 23 pages on.
abbrev pub is_outside : ℕ → ℕ → ℕ → ℕ → Bool
is_outside astart aend mapstart n =
    leb aend astart
    || leb (2 ^ 31) n
    || (n == 0)
    || ltb mapstart astart
    || ltb aend (u64 (mapstart + int_to_addr (u32 (n * frame_size))))

few_pages : (astart aend mapstart n : ℕ) → is_outside astart aend mapstart n ≡ false → n < 2 ^ 31
few_pages astart aend mapstart n inside = ground (arith, inside)

-- What a request for less than 2 ^ 31 frames gives.
pub frames_for :
    (n : ℕ) (mram : Memphy)
    → n < 2 ^ 31
    → alloc_pages_range n mram ≡ (
        if leb n (length mram.free_fp_list)
        then (0, reversed (take n mram.free_fp_list) [], with_free mram (drop n mram.free_fp_list))
        else (out_of_memory, [], with_free mram []))
frames_for n mram small =
    let few : (if ltb n (2 ^ 31) then n else 0) ≡ n = ground arith in
    subst
      (λ (k : ℕ). alloc_pages_range n mram ≡ (
        if leb k (length mram.free_fp_list)
        then (0, reversed (take k mram.free_fp_list) [], with_free mram (drop k mram.free_fp_list))
        else (out_of_memory, [], with_free mram [])))
      few (alloc_pages_range_lem n mram)

abbrev pub free_frames : Caller → List ℕ
free_frames c = c.machine.mram.free_fp_list

-- These frames are left as the free ones.
abbrev pub frames_left : Caller → List ℕ → Caller
frames_left c list = record c {
  machine = record (c.machine) { mram = with_free (c.machine.mram) list };
}

module _ (malloc : Malloc) (ok : IsMalloc malloc) (others : List ℕ) where
  -- The end of `vm_map_ram`
  finish : Option (Region × Caller) → Option (ℕ × Caller)
  finish none = none
  finish (some (_, c')) = some (0, c')

  same_length :
      (mapstart n : ℕ) (frames : List ℕ)
      → length frames ≡ n
      → (c : Caller) (r : Option (Region × Caller))
      → vmap_page_range malloc mapstart (length frames) frames c ≡ r
      → vmap_page_range malloc mapstart n frames c ≡ r
  same_length mapstart n frames many c r e =
      subst (λ (k : ℕ). vmap_page_range malloc mapstart k frames c ≡ r) many e

  mapped_from :
      (astart aend mapstart n : ℕ) (c : Caller)
      → is_outside astart aend mapstart n ≡ false
      → leb n (length (free_frames c)) ≡ true
      → vm_map_ram malloc astart aend mapstart n c
        ≡ finish (
            vmap_page_range malloc mapstart n
              (reversed (take n (free_frames c)) [])
              (frames_left c (drop n (free_frames c))))
  unfolding vm_map_ram finish
  mapped_from astart aend mapstart n c inside enough =
      let small = few_pages astart aend mapstart n inside in
      rw (vm_map_ram, inside, frames_for n c.machine.mram small, enough) refl

  pub vm_map_ram_lem :
      (astart aend mapstart n : ℕ) (c : Caller)
      → mapstart / 2 ^ pt_shift + n ≤ 2 ^ 45
      → ArePaged (tables c) (c.mm.pgd ∷ others)
      → let result = vm_map_ram malloc astart aend mapstart n c in
        let free = free_frames c in
        ((is_outside astart aend mapstart n ≡ true) × (result ≡ some (addr_failure, c)))
        ⊎ ((is_outside astart aend mapstart n ≡ false)
            × (length free < n)
            × (result ≡ some (addr_failure, frames_left c [])))
        ⊎ ((is_outside astart aend mapstart n ≡ false)
            × (n ≤ length free)
            × (((result ≡ none)
                  × RunsOut malloc
                      (mapstart / 2 ^ pt_shift)
                      (reversed (take n free) [])
                      (frames_left c (drop n free)))
                ⊎ ((c' : Caller) × (result ≡ some (0, c'))
                    × Mapped
                        (frames_left c (drop n free))
                        others
                        (mapstart / 2 ^ pt_shift)
                        (reversed (take n free) [])
                        c')))
  unfolding vm_map_ram finish
  vm_map_ram_lem astart aend mapstart n c h paged =
      elim (Bool-cases (is_outside astart aend mapstart n)) [
        | inl out ↦ inl (out, rw (vm_map_ram, out) refl)
        | inr inside ↦ inr (elim (Bool-cases (leb n (length (free_frames c)))) [
          | inr short ↦
              let small = few_pages astart aend mapstart n inside in
              inl (
                inside,
                ground arith,
                rw (vm_map_ram, inside, frames_for n c.machine.mram small, short) refl,
              )
          | inl enough ↦
              let frames = reversed (take n (free_frames c)) [] in
              let many : length frames ≡ n = omega (
                arith,
                length-reversed (take n (free_frames c)) [],
                length-take n (free_frames c),
                leb→le _ _ enough,
              ) in
              let taken = frames_left c (drop n (free_frames c)) in
              let result = mapped_from astart aend mapstart n c inside enough in
              inr (
                inside,
                leb→le _ _ enough,
                elim (vmap_page_range_lem malloc ok others mapstart frames taken (rw (many) h)
                    (rw (many) (few_pages astart aend mapstart n inside)) paged) [
                      | inl (e, full) ↦ inl (
                        result ∙ ap finish (same_length mapstart n frames many taken none e),
                        full,
                      )
                      | inr (c', e, m) ↦
                          inr (
                            c',
                            result ∙ ap finish (same_length mapstart n frames many taken _ e),
                            m,
                          )
                    ],
              )
        ])
      ]
