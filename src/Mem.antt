-- ===== src/Mem.antt =====
-- src/mem.c and include/mem.h: the memory of two levels that src/libmem.c replaces. The search for a
-- page table is left open in the source, and finds nothing. `mem_lock` is not modelled.
pub mod Parts
pub mod Instructions
use mathlib.Core.Option
use os_lamina_atrium.Base.{
  ℕ, zero, suc, ◌+◌, ◌-◌, ◌*◌, ◌/◌, ◌%◌, ◌^◌, bit_and, List, [], ◌∷◌, Option, none, some, ◌==◌, ltb,
  if◌then◌else◌, get_elem?, set, length, replicate,
}
use os_lamina_atrium.Words.{u64, u32, not32}

-- `RAM_SIZE`, `OFFSET_LEN`, `PAGE_LEN`, `PAGE_SIZE`
abbrev ram_size : ℕ
ram_size = 2 ^ 20

abbrev pub offset_len : ℕ
offset_len = 10

abbrev pub page_len : ℕ
page_len = 5

abbrev page_size : ℕ
page_size = 2 ^ offset_len

-- An element of `_mem_stat`
pub record Stat : Type 0 where
  pub proc : ℕ
  pub index : ℕ
  pub next : ℕ

pub record Mem : Type 0 where
  pub ram : List ℕ
  pub mem_stat : List Stat

-- `struct trans_table_t`, rows of two indices, of which `size` are in use
pub record TransTable : Type 0 where
  pub table : List (ℕ × ℕ)
  pub size : ℕ

-- `struct page_table_t`
pub record PageTable : Type 0 where
  pub table : List (ℕ × TransTable)
  pub size : ℕ

-- What of a process is used here
pub record Segments : Type 0 where
  pub page_table : PageTable
  pub bp : ℕ

unfoldable pub init_mem : Mem → Mem
init_mem m = record {
  ram = replicate ram_size 0;
  mem_stat = replicate (2 ^ 10) (record { proc = 0; index = 0; next = 0 });
}

-- `~0U` has 32 bits.
unfoldable pub get_offset : ℕ → ℕ
get_offset addr = bit_and addr (not32 (u32 ((2 ^ 32 - 1) * 2 ^ offset_len)))

unfoldable pub get_first_lv : ℕ → ℕ
get_first_lv addr = addr / 2 ^ (offset_len + page_len)

unfoldable pub get_second_lv : ℕ → ℕ
unfolding get_first_lv
get_second_lv addr = u64 (addr / 2 ^ offset_len + 2 ^ 64 - u64 (get_first_lv addr * 2 ^ page_len))

-- The loop has an empty body.
unfoldable pub get_trans_table : ℕ → PageTable → Option TransTable
get_trans_table index page_table = none

-- The loop of `translate`, with `left` rows left
unfoldable pub find_row : ℕ → ℕ → List (ℕ × ℕ) → ℕ
find_row second_lv zero rows = 0
find_row second_lv (suc left) [] = 0
find_row second_lv (suc left) ((v_index, _) ∷ rows) =
    let rest = find_row second_lv left rows in if v_index == second_lv then 1 else rest

-- 1 for a valid address; `*physical_addr` is not written in either case.
unfoldable pub translate : ℕ → Segments → ℕ
unfolding get_trans_table get_first_lv get_second_lv find_row
translate virtual_addr proc = elim (get_trans_table (get_first_lv virtual_addr) proc.page_table) [
  | none ↦ 0
  | some t ↦ find_row (get_second_lv virtual_addr) t.size t.table
]

unfoldable pub num_pages : ℕ → ℕ
num_pages size = if size % page_size == 0 then size / page_size + 1 else size / page_size

-- The address and the process; `mem_avail` stays 0.
unfoldable pub alloc_mem : ℕ → Segments → ℕ × Segments
unfolding num_pages
alloc_mem size proc =
    let mem_avail : ℕ = 0 in
    if mem_avail == 0
    then (0, proc)
    else (proc.bp, record proc { bp = u32 (proc.bp + num_pages size * page_size) })

unfoldable pub free_mem : ℕ → Segments → ℕ
free_mem address proc = 0

-- The status and the byte; `physical_addr` is what the local variable holds. `none` is a fault.
unfoldable pub read_mem : ℕ → ℕ → Segments → Mem → Option (ℕ × Option ℕ)
unfolding translate
read_mem physical_addr address proc m =
    if translate address proc == 0
    then some (1, none)
    else Option.map (λ value. (0, some value)) (get_elem? m.ram physical_addr)

unfoldable pub write_mem : ℕ → ℕ → Segments → ℕ → Mem → Option (ℕ × Mem)
unfolding translate
write_mem physical_addr address proc value m =
    if translate address proc == 0
    then some (1, m)
    else if ltb physical_addr (length m.ram)
    then some (0, record m { ram = set m.ram physical_addr value })
    else none
