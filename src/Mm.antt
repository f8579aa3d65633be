-- ===== src/Mm.antt =====
-- The memory-management state of include/os-mm.h: what a process has (`struct mm_struct`), what all
-- processes share, and the functions over both. Descriptors (regions, areas, pages in use) are list
-- elements; only the tables of page directories are blocks with addresses.
use os_lamina_atrium.Base.{ℕ, ◌==◌, Option, List, if◌then◌else◌}
use os_lamina_atrium.Memphy.{Memphy}

-- `struct vm_rg_struct`
pub record Region : Type 0 where
  pub rg_start : ℕ
  pub rg_end : ℕ

-- `struct vm_area_struct`
pub record VmArea : Type 0 where
  pub vm_id : ℕ
  pub vm_start : ℕ
  pub vm_end : ℕ
  pub sbrk : ℕ
  pub freerg_list : List Region

-- `struct mm_struct`. The pointers `p4d`, `pud`, `pmd` and `pt` are set to NULL and not used.
pub record Mm : Type 0 where
  pub pgd : ℕ
  pub used_pgd : List ℕ
  pub used_p4d : List ℕ
  pub used_pud : List ℕ
  pub used_pmd : List ℕ
  pub used_pt : List ℕ
  pub access_counter : ℕ
  pub byte_counter : ℕ
  pub mmap : List VmArea
  pub symrgtbl : List Region
  pub fifo_pgn : List ℕ

-- A table of `TABLE_SIZE_64` entries, and the tables in memory by their addresses.
abbrev pub Table : Type 0
Table = ℕ → ℕ

abbrev pub Tables : Type 0
Tables = ℕ → Option Table

-- What all processes share: memory, the statistics of src/mm64.c, RAM and the active swap device.
pub record Machine : Type 0 where
  pub tables : Tables
  pub total_accesses : ℕ
  pub total_storage_bytes : ℕ
  pub mram : Memphy
  pub active_mswp : Memphy

-- What a function reaches through its argument `caller`.
pub record Caller : Type 0 where
  pub mm : Mm
  pub machine : Machine

-- A function that may fail by a fault, such as a read through NULL.
abbrev pub M : Type 0 → Type 0
M A = Caller → Option (A × Caller)

abbrev pub update {ℓ} : {A : Type ℓ} → (ℕ → A) → ℕ → A → ℕ → A
update f k v j = if j == k then v else f j

-- The C library's `malloc` of a block for one table: the address, or `none` for NULL.
abbrev pub Malloc : Type 0
Malloc = Tables → Option ℕ
