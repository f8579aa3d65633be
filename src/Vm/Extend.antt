-- ===== src/Vm/Extend.antt =====
-- What `inc_vma_limit` does when there are frames enough.
use os_lamina_atrium.Base.{
  ℕ, ◌+◌, ◌*◌, ◌/◌, ◌^◌, ◌≤◌, ◌≡◌, refl, ap, ◌∙◌, ◌⊎◌, inl, inr, true, false, List, [], ◌∷◌, none,
  some, ◌==◌, ltb, leb, take, drop, arith, length, success,
}
use os_lamina_atrium.Words.{u64, u32, int_to_addr}
use os_lamina_atrium.Memphy.{frame_size}
use os_lamina_atrium.Mm.{VmArea, Caller, Malloc}
use os_lamina_atrium.Paging.Addr.{page_size, pt_shift}
use os_lamina_atrium.Paging.Table.Walk.{IsMalloc, tables}
use os_lamina_atrium.Paging.Table.Map.{ArePaged}
use os_lamina_atrium.Paging.Range.Frames.{reversed}
use os_lamina_atrium.Paging.Range.Mapping.{RunsOut, Mapped}
use os_lamina_atrium.Paging.Range.Ram.{is_outside, free_frames, frames_left, vm_map_ram_lem}
use os_lamina_atrium.Vm.{change_area, inc_vma_limit}
use os_lamina_atrium.Vm.Grow.{Extends, raised, grown, after_mapping, inc_vma_limit-mapped}

-- The pages of the growth lie in the area that `inc_vma_limit` gives to `vm_map_ram`.
inside :
    (c : Caller) (area : VmArea) (amount : ℕ)
    → Extends c area amount
    → is_outside area.sbrk (area.sbrk + amount) area.sbrk (amount / page_size) ≡ false
inside c area amount l =
    let s = area.sbrk in
    let n = amount / page_size in
    let one : leb (s + amount) s ≡ false = ground (arith, l.more) in
    let two : leb (2 ^ 31) n ≡ false = ground (arith, l.in_range) in
    let three : (n == 0) ≡ false = ground (arith, l.more, l.aligned) in
    let four : ltb s s ≡ false = ground arith in
    let product : int_to_addr (u32 (n * frame_size)) ≡ n * frame_size =
      ground (arith, l.in_range) in
    let five : ltb (s + amount) (u64 (s + n * frame_size)) ≡ false =
      ground (arith, l.in_range, l.aligned) in
    rw (one, two, three, four, product, five) refl

module _ (malloc : Malloc) (ok : IsMalloc malloc) (others : List ℕ) where
  -- `inc_vma_limit` of the one area of a process, by a multiple of the page size for which there
  -- are frames: it succeeds, unless the walk to one of the pages, after those before it are mapped,
  -- gives NULL for lack of memory for a table, which is a fault. The first free frames are taken,
  -- the last of them first, and mapped to the pages from the old end of the heap on; then the
  -- heap's end goes up by the amount, and the first free region, if there is one, becomes all that
  -- lies above the new end.
  pub inc_vma_limit_with_memory :
      (c : Caller) (area : VmArea) (amount : ℕ)
      → Extends c area amount
      → amount / page_size ≤ length (free_frames c)
      → ArePaged (tables c) (c.mm.pgd ∷ others)
      → let n = amount / page_size in
        let result = inc_vma_limit malloc true 0 amount c in
        ((result ≡ none)
          × RunsOut malloc
              (area.sbrk / 2 ^ pt_shift)
              (reversed (take n (free_frames c)) [])
              (frames_left (raised c area amount) (drop n (free_frames c))))
        ⊎ ((c' : Caller) × (result
              ≡ some (success, change_area c' 0 (grown area (area.sbrk + amount))))
            × Mapped
                (frames_left (raised c area amount) (drop n (free_frames c)))
                others
                (area.sbrk / 2 ^ pt_shift)
                (reversed (take n (free_frames c)) [])
                c')
  inc_vma_limit_with_memory c area amount l enough paged =
      let called = inc_vma_limit-mapped malloc c area amount l in
      let after = after_mapping area (area.sbrk + amount) in
      elim (vm_map_ram_lem malloc ok others area.sbrk (area.sbrk + amount) area.sbrk
        (amount / page_size) (raised c area amount) (omega (arith, l.in_range)) paged) [
          | inl (out, _) ↦ cc (out, inside c area amount l)
          | inr (inl (_, few, _)) ↦ absurd (omega (arith, few, enough))
          | inr (inr (_, _, inl (e, full))) ↦ inl (called ∙ ap after e, full)
          | inr (inr (_, _, inr (c', e, m))) ↦ inr (c', called ∙ ap after e, m)
        ]
