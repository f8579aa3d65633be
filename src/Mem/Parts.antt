-- ===== src/Mem/Parts.antt =====
-- How an address of src/mem.c is taken apart.
use os_lamina_atrium.Base.{ℕ, ◌+◌, ◌*◌, ◌%◌, ◌^◌, ◌<◌, ◌≡◌, arith}
use os_lamina_atrium.Base.Bits.{bit_and-ones}
use os_lamina_atrium.Mem.{offset_len, page_len, get_offset, get_first_lv, get_second_lv}

-- The two indices and the offset of an address of 64 bits give the address back; the offset is below
-- 1024 and the second index below 32.
pub get_offset_lem :
    (addr : ℕ)
    → addr < 2 ^ 64
    → ((get_first_lv addr * 2 ^ page_len + get_second_lv addr) * 2 ^ offset_len + get_offset addr
        ≡ addr)
      × (get_offset addr < 2 ^ offset_len)
      × (get_second_lv addr < 2 ^ page_len)
unfolding get_offset get_first_lv get_second_lv
get_offset_lem addr h =
    let low : get_offset addr ≡ addr % 2 ^ 10 = bit_and-ones 10 addr in
    (omega (arith, low), omega (arith, low), omega arith)
