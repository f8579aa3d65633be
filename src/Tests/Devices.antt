-- ===== src/Tests/Devices.antt =====
-- A random access device and a sequential one.
use os_lamina_atrium.Base.{
  ℕ, ◌+◌, ◌/◌, ◌<◌, ◌≡◌, ◌≢◌, success, ◌^◌, refl, [], ◌∷◌, some, ltb, leb, if◌then◌else◌, arith,
  replicate, length, take, drop,
}
use os_lamina_atrium.Words.{u32}
use os_lamina_atrium.Memphy.{
  Memphy, frame_size, mv_csr_loop, mv_csr, read, write, init_memphy, format, get_freefp,
}
use os_lamina_atrium.Memphy.Bytes.{byte, mv_csr_lem, read-write}
use os_lamina_atrium.Memphy.Frames.{Reach, made, in_all, frames_owned_once, here, next, get}
use os_lamina_atrium.Paging.Range.{alloc_pages_range, out_of_memory}
use os_lamina_atrium.Paging.Range.Frames.{reversed, with_free, alloc_pages_range_lem}

abbrev ram : Memphy
ram = record {
  storage = 5 ∷ 6 ∷ replicate 510 0;
  maxsz = 512;
  rdmflg = 1;
  cursor = 0;
  free_fp_list = 0 ∷ 1 ∷ [];
}

abbrev tape : Memphy
tape = record { storage = 5 ∷ 6 ∷ 7 ∷ []; maxsz = 3; rdmflg = 0; cursor = 0; free_fp_list = [] }

mv_csr_lem_example :
    ((tests : ℕ) → 3 < tests → mv_csr_loop tests 0 2 3 0 ≡ some 2)
    × (mv_csr tape 2 ≡ some (record tape { cursor = 2 }))
mv_csr_lem_example = mv_csr_lem tape 2 (omega arith) (omega arith)

read-write_example :
    (mp' : Memphy) × (write ram 1 9 ≡ some (success, mp'))
    × (read mp' 1 ≡ some (success, some 9, mp'))
    × ((other : ℕ)
        → other ≢ 1
        → other < 512
        → (read mp' other ≡ some (success, some (byte ram other), mp'))
          × (read ram other ≡ some (success, some (byte ram other), ram)))
read-write_example = read-write ram 1 9 (omega arith) (omega arith)

-- An offset past the end.
past_end : mv_csr tape 1000 ≡ some tape
unfolding mv_csr mv_csr_loop
past_end = refl

-- What an `int` keeps of 2 ^ 32 + 512 bytes are two frames.
truncated : (format [] (record tape { maxsz = u32 (2 ^ 32 + 512) }) 256).1.free_fp_list ≡ 0 ∷ 1 ∷ []
unfolding format
truncated = refl

taken_once : Memphy
unfolding init_memphy format
taken_once = record (init_memphy [] tape 512 1) { free_fp_list = 1 ∷ [] }

one_taken : Reach (made [] tape 512 1) (record { device = taken_once; taken = 0 ∷ [] })
unfolding init_memphy format get_freefp taken_once
one_taken = next here (get 0 refl)

frames_owned_once_example :
    in_all 1 (record { device = taken_once; taken = 0 ∷ [] })
    ≡ (if ltb 1 (512 / frame_size) then 1 else 0)
frames_owned_once_example =
    frames_owned_once [] tape 512 1 (record { device = taken_once; taken = 0 ∷ [] }) (omega arith)
      (omega arith) one_taken 1

alloc_pages_range_lem_example : alloc_pages_range 2 ram ≡ (
    if leb 2 (length ram.free_fp_list)
    then (0, reversed (take 2 ram.free_fp_list) [], with_free ram (drop 2 ram.free_fp_list))
    else (out_of_memory, [], with_free ram []))
alloc_pages_range_lem_example = alloc_pages_range_lem 2 ram
