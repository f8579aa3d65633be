-- ===== src/Paging/Table.antt =====
-- The walk through the five levels of page directories, and the functions of src/mm64.c that read
-- or write the entry at its end. `malloc` is a parameter. The four blocks of `pteTravelling` that
-- go down one level are the same code: here they are one function, called once for each level.
pub mod Owner
pub mod Add
pub mod Walk
pub mod Store
pub mod Map
pub mod Change
pub mod Sets
use os_lamina_atrium.Base.{
  ℕ, ◌+◌, ◌*◌, List, [], ◌∷◌, Option, none, some, ◌==◌, if◌then◌else◌, ℤ, success,
}
use os_lamina_atrium.Words.{u64, u32}
use os_lamina_atrium.Mm.{Table, Caller, M, Malloc, update}
use os_lamina_atrium.Paging.Addr.{Indices, get_pd_from_address, page_address}
use os_lamina_atrium.Paging.Pte.{online_entry, swapped_entry}

-- `sizeof(addr_t) * TABLE_SIZE_64`
abbrev pub table_bytes : ℕ
table_bytes = 8 * 512

abbrev pub zeros : Table
zeros i = 0

-- Both counters of accesses, which belong to the process and to the system, go up by the levels.
abbrev pub count_access : Caller → Caller
count_access c = record {
  mm = record (c.mm) { access_counter = u64 (c.mm.access_counter + 5) };
  machine = record (c.machine) { total_accesses = u64 (c.machine.total_accesses + 5) };
}

-- A new table of zeros at `new`, entered at index `i` of the table `table` that stands at `at`.
abbrev pub add_table : Caller → ℕ → Table → ℕ → ℕ → Caller
add_table c at table i new = record {
  mm = record (c.mm) { byte_counter = u64 (c.mm.byte_counter + table_bytes) };
  machine = record (c.machine) {
    tables = update (update c.machine.tables new (some zeros)) at (some (update table i new));
    total_storage_bytes = u64 (c.machine.total_storage_bytes + table_bytes);
  };
}

-- One level down from index `i` of the table at `at`: `none` inside is NULL, for lack of memory.
unfoldable pub next_table : Malloc → ℕ → ℕ → M (Option ℕ)
next_table malloc at i c = elim (c.machine.tables at) [
  | none ↦ none
  | some table ↦
      if table i == 0
      then elim (malloc c.machine.tables) [
        | none ↦ some (none, c)
        | some new ↦ some (some new, add_table c at table i new)
      ]
      else some (some (table i), c)
]

unfoldable pub walk : Malloc → ℕ → List ℕ → M (Option ℕ)
walk malloc at [] c = some (some at, c)
walk malloc at (i ∷ is) c = elim (next_table malloc at i c) [
  | none ↦ none
  | some (none, c') ↦ some (none, c')
  | some (some next, c') ↦ walk malloc next is c'
]

-- The indices on the way to the last table.
abbrev pub path : Indices → List ℕ
path d = d.pgd ∷ d.p4d ∷ d.pud ∷ d.pmd ∷ []

-- The address of the last table, in which the entry has the index `pt`; `none` inside is NULL.
unfoldable pub pte_travelling : Malloc → ℕ → M (Option ℕ)
unfolding walk next_table
pte_travelling malloc address c =
    walk malloc c.mm.pgd (path (get_pd_from_address address)) (count_access c)

abbrev pub entry_index : ℕ → ℕ
entry_index pgn = (get_pd_from_address (page_address pgn)).pt

-- `*pte = f(*pte)` in the table at `at`
unfoldable pub change_entry : ℕ → ℕ → (ℕ → ℕ) → M ℤ
change_entry at i f c = elim (c.machine.tables at) [
  | none ↦ none
  | some table ↦ some (
    success,
    record c {
      machine = record (c.machine) {
        tables = update c.machine.tables at (some (update table i (f (table i))));
      };
    },
  )
]

-- The functions that write an entry do not test the pointer: NULL is a fault.
unfoldable pub pte_change : Malloc → ℕ → (ℕ → ℕ) → M ℤ
unfolding pte_travelling change_entry
pte_change malloc pgn f c = elim (pte_travelling malloc (page_address pgn) c) [
  | none ↦ none
  | some (none, c') ↦ none
  | some (some at, c') ↦ change_entry at (entry_index pgn) f c'
]

unfoldable pub pte_set_swap : Malloc → ℕ → ℕ → ℕ → M ℤ
unfolding pte_change
pte_set_swap malloc pgn swptyp swpoff =
    pte_change malloc pgn (λ pte. swapped_entry pte swptyp swpoff)

unfoldable pub pte_set_fpn : Malloc → ℕ → ℕ → M ℤ
unfolding pte_change
pte_set_fpn malloc pgn fpn = pte_change malloc pgn (λ pte. online_entry pte fpn)

unfoldable pub pte_set_entry : Malloc → ℕ → ℕ → M ℤ
unfolding pte_change
pte_set_entry malloc pgn pte_val = pte_change malloc pgn (λ pte. u32 pte_val)

-- An entry that cannot be reached reads as 0.
unfoldable pub pte_get_entry : Malloc → ℕ → M ℕ
unfolding pte_travelling
pte_get_entry malloc pgn c = elim (pte_travelling malloc (page_address pgn) c) [
  | none ↦ none
  | some (none, c') ↦ some (0, c')
  | some (some at, c') ↦ elim (c'.machine.tables at) [
    | none ↦ none
    | some table ↦ some (u32 (table (entry_index pgn)), c')
  ]
]
