-- ===== src/Memphy.antt =====
-- src/mm-memphy.c and the copy loop of src/mm64.c: a physical memory or swap device, with its bytes
-- and its list of free frames. A device is passed as a value and returned changed; every caller
-- passes the address of a device that exists, so the tests `mp == NULL` have no counterpart.
-- `maxsz` is the pattern of an `int`. There is memory for the storage and the descriptors. The
-- bytes are only moved: a `BYTE` is any number. An access outside the storage is a fault.
pub mod Frames
pub mod Bytes
pub mod Copy
use mathlib.Core.Option
use os_lamina_atrium.Base.{
  ℕ, zero, suc, ◌+◌, ◌-◌, ◌*◌, ◌/◌, ◌%◌, ◌&&◌, List, [], ◌∷◌, Option, none, some, ◌==◌, ltb,
  if◌then◌else◌, get_elem?, set, replicate, length, ℤ, success, failure,
}
use os_lamina_atrium.Words.{u64, u32, or_zero}

-- `PAGING_PAGESZ`, the size of a frame
abbrev pub frame_size : ℕ
frame_size = 256

-- `struct memphy_struct`; a frame's descriptor holds its number and nothing else that is used.
pub record Memphy : Type 0 where
  pub storage : List ℕ
  pub maxsz : ℕ
  pub rdmflg : ℕ
  pub cursor : ℕ
  pub free_fp_list : List ℕ

-- The loop of `MEMPHY_mv_csr`, from step `numstep` on: `none` if it needs more than `rounds` tests.
unfoldable pub mv_csr_loop : ℕ → ℕ → ℕ → ℕ → ℕ → Option ℕ
mv_csr_loop zero numstep offset maxsz cursor = none
mv_csr_loop (suc rounds) numstep offset maxsz cursor =
    let rest = mv_csr_loop rounds (numstep + 1) offset maxsz ((cursor + 1) % maxsz) in
    if ltb numstep offset && ltb numstep (or_zero maxsz) then rest else some cursor

-- It makes its test `maxsz + 1` times at most.
unfoldable pub mv_csr : Memphy → ℕ → Option Memphy
unfolding mv_csr_loop
mv_csr mp offset =
    Option.map (λ cursor. record mp { cursor = cursor })
      (mv_csr_loop (or_zero mp.maxsz + 1) 0 offset mp.maxsz 0)

-- A read: the status, the byte if one is written to `*value`, and the device.
abbrev pub Read : Type 0
Read = Option (ℤ × Option ℕ × Memphy)

unfoldable pub seq_read : Memphy → ℕ → Read
unfolding mv_csr
seq_read mp addr = if mp.rdmflg == 0 then some (failure, none, mp) else elim (mv_csr mp addr) [
  | none ↦ none
  | some mp' ↦ Option.map (λ v. (success, some v, mp')) (get_elem? mp.storage addr)
]

unfoldable pub read : Memphy → ℕ → Read
unfolding seq_read
read mp addr =
    if mp.rdmflg == 0
    then seq_read mp addr
    else Option.map (λ v. (success, some v, mp)) (get_elem? mp.storage addr)

-- A write: the status and the device.
abbrev pub Write : Type 0
Write = Option (ℤ × Memphy)

abbrev store : Memphy → ℕ → ℕ → Write
store mp addr value =
    if ltb addr (length mp.storage)
    then some (success, record mp { storage = set mp.storage addr value })
    else none

unfoldable pub seq_write : Memphy → ℕ → ℕ → Write
unfolding mv_csr
seq_write mp addr value =
    if mp.rdmflg == 0
    then some (failure, mp)
    else elim (mv_csr mp addr) [ none ↦ none | some mp' ↦ store mp' addr value ]

unfoldable pub write : Memphy → ℕ → ℕ → Write
unfolding seq_write
write mp addr value = if mp.rdmflg == 0 then seq_write mp addr value else store mp addr value

-- The frames `iter`, `iter + 1`, and so on, `rounds` of them.
abbrev pub frames_from : ℕ → ℕ → List ℕ
frames_from zero iter = []
frames_from (suc rounds) iter = iter ∷ frames_from rounds (iter + 1)

-- `numfp` is an `int` too, below 0 where `maxsz` is. The `fp_next` of the first descriptor is set
-- only when there is a second one: with one frame, the list goes on with `junk`, which the memory
-- of that descriptor happened to hold.
unfoldable pub format : List ℕ → Memphy → ℕ → ℤ × Memphy
format junk mp pagesz =
    let numfp = or_zero mp.maxsz / pagesz in
    if numfp == 0 then (failure, mp) else (
      success,
      record mp { free_fp_list = 0 ∷ (if numfp == 1 then junk else frames_from (numfp - 1) 1) },
    )

unfoldable pub get_freefp : Memphy → Option (ℕ × Memphy)
get_freefp mp = elim mp.free_fp_list [
  | [] ↦ none
  | fpn ∷ rest ↦ some (fpn, record mp { free_fp_list = rest })
]

unfoldable pub put_freefp : Memphy → ℕ → Memphy
put_freefp mp fpn = record mp { free_fp_list = fpn ∷ mp.free_fp_list }

-- `mp` holds what the memory of the device held before; `maxsz` is what an `int` keeps of `max_size`;
-- `format`'s result is not looked at.
unfoldable pub init_memphy : List ℕ → Memphy → ℕ → ℕ → Memphy
unfolding format
init_memphy junk mp max_size randomflg =
    let formatted =
      (format junk (record mp { storage = replicate max_size 0; maxsz = u32 max_size })
        frame_size).1 in
    record formatted {
      rdmflg = if randomflg == 0 then 0 else 1;
      cursor = if randomflg == 0 then 0 else formatted.cursor;
    }

-- `__swap_cp_page` from cell `cellidx` on. `data` is declared in the loop's body: writing it after
-- a read that failed is a fault.
unfoldable pub copy_cells : ℕ → ℕ → Memphy → ℕ → Memphy → ℕ → Option (Memphy × Memphy)
copy_cells zero cellidx src srcfpn dst dstfpn = some (src, dst)
copy_cells (suc rounds) cellidx src srcfpn dst dstfpn =
    elim (read src (u64 (srcfpn * frame_size + cellidx))) [
      | none ↦ none
      | some (_, none, src') ↦ none
      | some (_, some byte, src') ↦ elim (write dst (u64 (dstfpn * frame_size + cellidx)) byte) [
        | none ↦ none
        | some (_, dst') ↦ copy_cells rounds (cellidx + 1) src' srcfpn dst' dstfpn
      ]
    ]

unfoldable pub swap_cp_page : Memphy → ℕ → Memphy → ℕ → Option (Memphy × Memphy)
unfolding copy_cells read write
swap_cp_page src srcfpn dst dstfpn = copy_cells frame_size 0 src srcfpn dst dstfpn
