-- ===== src/Paging/Range/Frames.antt =====
-- `alloc_pages_range` of src/mm64.c and the list of free frames.
use os_lamina_atrium.Base.{
  ℕ, zero, suc, ◌≤◌, ◌<◌, ◌≡◌, refl, List, [], ◌∷◌, arith, length, take, drop, inl, inr, ltb, leb,
  ◌^◌, leb→le, if◌then◌else◌, Bool-cases,
}
use os_lamina_atrium.Words.{or_zero}
use os_lamina_atrium.Memphy.{Memphy, get_freefp}
use os_lamina_atrium.Paging.Range.{take_frames, alloc_pages_range, out_of_memory}

-- The list in the opposite order, before `onto`.
abbrev pub reversed : List ℕ → List ℕ → List ℕ
reversed [] onto = onto
reversed (x ∷ xs) onto = reversed xs (x ∷ onto)

abbrev pub with_free : Memphy → List ℕ → Memphy
with_free mram list = record mram { free_fp_list = list }

take_frames_enough :
    (n : ℕ) (list : List ℕ) (mram : Memphy) (frm_lst : List ℕ)
    → n ≤ length list
    → take_frames n (with_free mram list) frm_lst
      ≡ (0, reversed (take n list) frm_lst, with_free mram (drop n list))
unfolding take_frames get_freefp
take_frames_enough zero list mram frm_lst h = refl
take_frames_enough (suc n) [] mram frm_lst h = absurd (omega arith)
take_frames_enough (suc n) (x ∷ list) mram frm_lst h =
    take_frames_enough n list mram (x ∷ frm_lst) (omega arith)

take_frames_short :
    (n : ℕ) (list : List ℕ) (mram : Memphy) (frm_lst : List ℕ)
    → length list < n
    → take_frames n (with_free mram list) frm_lst ≡ (out_of_memory, [], with_free mram [])
unfolding take_frames get_freefp
take_frames_short zero list mram frm_lst h = absurd (omega arith)
take_frames_short (suc n) [] mram frm_lst h = refl
take_frames_short (suc n) (x ∷ list) mram frm_lst h =
    take_frames_short n list mram (x ∷ frm_lst) (omega arith)

-- A negative request asks for none. With enough free frames, the request gives the first ones of
-- the free list, the last of them first, and the others stay free. With too few, it gives none and
-- says so, and no frame is free any more.
pub alloc_pages_range_lem :
    (n : ℕ) (mram : Memphy)
    → let free = mram.free_fp_list in
      let asked = if ltb n (2 ^ 31) then n else 0 in
      alloc_pages_range n mram ≡ (
        if leb asked (length free)
        then (0, reversed (take asked free) [], with_free mram (drop asked free))
        else (out_of_memory, [], with_free mram []))
unfolding alloc_pages_range
alloc_pages_range_lem n mram = elim (Bool-cases (leb (or_zero n) (length mram.free_fp_list))) [
  | inl e ↦ rw e (take_frames_enough (or_zero n) mram.free_fp_list mram [] (leb→le _ _ e))
  | inr e ↦ rw e (take_frames_short (or_zero n) mram.free_fp_list mram [] (ground arith))
]
