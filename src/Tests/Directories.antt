-- ===== src/Tests/Directories.antt =====
-- Page directories and entries of two processes.
use os_lamina_atrium.Base.{
  ℕ, zero, suc, ◌+◌, ◌*◌, ◌%◌, ◌^◌, ◌≡◌, ◌≢◌, refl, ap, ◌⊎◌, [], ◌∷◌, Option, none, some, ◌==◌,
  if◌then◌else◌, arith, replicate, ℤ, success, Bool, true, false, sym, subst,
}
use os_lamina_atrium.Words.{u32}
use os_lamina_atrium.Memphy.{Memphy}
use os_lamina_atrium.Mm.{Table, Tables, VmArea, Caller, Malloc}
use os_lamina_atrium.Paging.Addr.{page_size, get_pd_from_address}
use os_lamina_atrium.Paging.Addr.Laws.{to_address, InTables, get_pd_from_address_lem}
use os_lamina_atrium.Paging.Pte.{paging_page_present, paging_fpn, online_entry, swapped_entry}
use os_lamina_atrium.Paging.Pte.Laws.{IsOnline, swapped_entry_reads_as_frame}
use os_lamina_atrium.Paging.Table.{zeros, pte_set_fpn, pte_set_swap, pte_set_entry, pte_get_entry}
use os_lamina_atrium.Paging.Table.Owner.{Owner, entry_of}
use os_lamina_atrium.Paging.Table.Walk.{IsMalloc, rest, tables}
use os_lamina_atrium.Paging.Table.Map.{entry, ArePaged, SameEntries, pte_get_entry_lem}
use os_lamina_atrium.Paging.Table.Change.{OutOfMemory}
use os_lamina_atrium.Paging.Table.Sets.{Sets, pte_set_lem, pte_get_entry-pte_set_fpn}
use os_lamina_atrium.Vm.{find_area, page_align, get_vma_by_num, vma_from}
use os_lamina_atrium.Libmem.{get_symrg_byid, alloc}
use os_lamina_atrium.Libmem.Access.{libread, libwrite}
use os_lamina_atrium.Libmem.Bytes.{Unchanged, libwrite_stores_nothing}
use os_lamina_atrium.Vm.Grow.{Extends, raised}
use os_lamina_atrium.Libmem.Alloc.{Asks, allotted}
use os_lamina_atrium.Libmem.Extend.{left_over, alloc_grows}
use os_lamina_atrium.Regions.{enlist_vm_freerg_list}
use os_lamina_atrium.Paging.Range.Mapping.{RunsOut, Mapped}
use os_lamina_atrium.Paging.Range.Ram.{frames_left}

-- A `malloc` that has the blocks at 1 to 64.
abbrev block_from : ℕ → ℕ → Tables → Option ℕ
block_from zero a t = none
block_from (suc n) a t = elim (t a) [ none ↦ some a | some _ ↦ block_from n (a + 1) t ]

abbrev block : Malloc
block = block_from 64 1

block_from-free :
    (n a b : ℕ) (t : Tables) → a ≢ 0 → block_from n a t ≡ some b → (t b ≡ none) × (b ≢ 0)
block_from-free zero a b t h e = cc (e)
block_from-free (suc n) a b t h e =
    look (t a) refl (λ rest. block_from-free n (a + 1) b t (omega arith) rest) e
  where
    look :
        (r : Option Table)
        → t a ≡ r
        → (block_from n (a + 1) t ≡ some b → (t b ≡ none) × (b ≢ 0))
        → (elim r [ none ↦ some a | some _ ↦ block_from n (a + 1) t ]) ≡ some b
        → (t b ≡ none) × (b ≢ 0)
    look none free ih e =
        let same : a ≡ b = cc (e) in subst (λ (x : ℕ). (t x ≡ none) × (x ≢ 0)) same (free, h)
    look (some tb) used ih e = ih e

block-IsMalloc : IsMalloc block
block-IsMalloc = record { fresh = λ t a e. block_from-free 64 1 a t (omega arith) e }

abbrev no_device : Memphy
no_device = record { storage = []; maxsz = 0; rdmflg = 1; cursor = 0; free_fp_list = [] }

-- Two processes have a first table each, at 1 and at 2.
abbrev two_tables : Tables
two_tables a = if a == 1 then some zeros else if a == 2 then some zeros else none

abbrev first_proc : Caller
first_proc = record {
  mm = record {
    pgd = 1;
    used_pgd = replicate 512 0;
    used_p4d = replicate 512 0;
    used_pud = replicate 512 0;
    used_pmd = replicate 512 0;
    used_pt = replicate 512 0;
    access_counter = 0;
    byte_counter = 0;
    mmap = [];
    symrgtbl = [];
    fifo_pgn = [];
  };
  machine = record {
    tables = two_tables;
    total_accesses = 0;
    total_storage_bytes = 0;
    mram = no_device;
    active_mswp = no_device;
  };
}

abbrev own_root : Owner
own_root x = x ∷ []

zero_entry :
    (one two : Bool) (i : ℕ) (table : Table)
    → (if one then some zeros else if two then some zeros else none) ≡ some table
    → table i ≡ 0
zero_entry true two i table e = sym (ap (λ (t : Option Table). entry_of t i) e)
zero_entry false true i table e = sym (ap (λ (t : Option Table). entry_of t i) e)
zero_entry false false i table e = cc (e)

paged : ArePaged two_tables (1 ∷ 2 ∷ [])
paged = (
  own_root,
  record { child = λ x i table e l n. absurd (n (zero_entry (x == 1) (x == 2) i table e)) },
  (((zeros, refl), refl), (((zeros, refl), refl), tt)),
)

pte_set_lem_example :
    Sets block block-IsMalloc first_proc
      (2 ∷ [])
      5
      paged
      (λ pte. online_entry pte 7)
      (pte_set_fpn block 5 7 first_proc)
    × Sets block block-IsMalloc first_proc
        (2 ∷ [])
        5
        paged
        (λ pte. swapped_entry pte 1 3)
        (pte_set_swap block 5 1 3 first_proc)
    × Sets block block-IsMalloc first_proc
        (2 ∷ [])
        5
        paged
        (λ pte. u32 9)
        (pte_set_entry block 5 9 first_proc)
pte_set_lem_example = pte_set_lem block block-IsMalloc first_proc (2 ∷ []) 5 paged 7 1 3 9

pte_get_entry-pte_set_fpn_example :
    ((pte_set_fpn block 5 7 first_proc ≡ none) × OutOfMemory block first_proc 5)
    ⊎ ((c' : Caller) × (c'' : Caller) × (value : ℕ) × (pte_set_fpn block 5 7 first_proc
          ≡ some (success, c'))
        × (pte_get_entry block 5 c' ≡ some (value, c''))
        × IsOnline (entry two_tables 1 5) 7 value)
pte_get_entry-pte_set_fpn_example =
    pte_get_entry-pte_set_fpn block block-IsMalloc first_proc (2 ∷ []) 5 paged 7

pte_get_entry_lem_example :
    (c' : Caller) × (pte_get_entry block 5 first_proc ≡ some (u32 (entry two_tables 1 5), c'))
    × ArePaged (tables c') (1 ∷ 2 ∷ [])
    × SameEntries two_tables (tables c') (1 ∷ 2 ∷ [])
    × (rest c' ≡ rest first_proc)
pte_get_entry_lem_example = pte_get_entry_lem block block-IsMalloc first_proc (2 ∷ []) 5 paged

-- There is memory: the page gets its entry.
abbrev status : Option (ℤ × Caller) → Option ℤ
status none = none
status (some (r, c)) = some r

pte_set_fpn_succeeds : status (pte_set_fpn block 5 7 first_proc) ≡ some success
unfolding pte_set_fpn
pte_set_fpn_succeeds = refl

get_pd_from_address_lem_example :
    InTables (get_pd_from_address 0x123456789abcdef)
    × (to_address (get_pd_from_address 0x123456789abcdef) (0x123456789abcdef % page_size)
        ≡ 0x123456789abcdef % 2 ^ 57)
get_pd_from_address_lem_example = get_pd_from_address_lem 0x123456789abcdef

swapped_entry_reads_as_frame_example :
    let entry = swapped_entry 0x80000007 1 300 in
    (paging_page_present entry ≢ 0) × (paging_fpn entry ≡ 1 % 2 ^ 5 + 300 % 2 ^ 8 * 2 ^ 5)
swapped_entry_reads_as_frame_example = swapped_entry_reads_as_frame 0x80000007 1 300

-- The first process, with a device of which three frames are free.
abbrev with_frames : Caller
with_frames = frames_left first_proc (4 ∷ 5 ∷ 6 ∷ [])

abbrev heap : VmArea
heap = record {
  vm_id = 0;
  vm_start = 0;
  vm_end = 0x200000;
  sbrk = 8192;
  freerg_list = record { rg_start = 200; rg_end = 300 } ∷ [];
}

-- The first process, with three free frames and a heap of two pages.
abbrev with_heap : Caller
with_heap = record with_frames { mm = record (with_frames.mm) { mmap = heap ∷ [] } }

-- The first process, with one variable of 100 bytes.
abbrev with_variable : Caller
with_variable = record with_heap {
  mm = record (with_heap.mm) {
    symrgtbl =
        record { rg_start = 0; rg_end = 100 } ∷ replicate 29 (record { rg_start = 0; rg_end = 0 });
  };
}

heap_found : find_area with_variable.mm.mmap 0 ≡ some (some (0, heap))
unfolding get_vma_by_num vma_from
heap_found = refl

variable_found : get_symrg_byid with_variable.mm 0 ≡ some (record { rg_start = 0; rg_end = 100 })
unfolding get_symrg_byid
variable_found = refl

libwrite_stores_nothing_example :
    ((c' : Caller) × (libwrite block 0 20 with_variable ≡ some (success, c'))
      × Unchanged 1 (2 ∷ []) with_variable c')
    × ((c' : Caller) × (libread block 99 0 20 with_variable ≡ some ((success, 99), c'))
        × Unchanged 1 (2 ∷ []) with_variable c')
libwrite_stores_nothing_example =
    libwrite_stores_nothing block block-IsMalloc (2 ∷ []) with_variable 0 20 99 0 heap
      (record { rg_start = 0; rg_end = 100 }) heap_found variable_found paged

-- The process asks for 5000 bytes for its second variable.
with_variable-Asks : Asks with_variable heap [] 1 5000
with_variable-Asks = record {
  areas_are = refl;
  first = refl;
  in_table = omega arith;
  some_bytes = omega arith;
  size_int = omega arith;
  no_wrap = (omega arith, tt);
}

with_variable-Extends : Extends with_variable heap (page_align 5000)
with_variable-Extends = record {
  one_area = refl;
  first = refl;
  aligned = omega arith;
  more = omega arith;
  in_range = omega arith;
}

alloc_grows_example :
    let result = alloc block true true 0 1 5000 with_variable in
    ((result ≡ none)
      × RunsOut block 2 (5 ∷ 4 ∷ []) (frames_left (raised with_variable heap 8192) (6 ∷ [])))
    ⊎ ((c' : Caller) × (result
          ≡ some (
            some 8192,
            allotted c'
                (record heap { sbrk = 16384 })
                []
                1
                (record { rg_start = 8192; rg_end = 13192 })
                (left_over heap 5000),
          ))
        × Mapped (frames_left (raised with_variable heap 8192) (6 ∷ [])) (2 ∷ []) 2 (5 ∷ 4 ∷ []) c')
alloc_grows_example =
    alloc_grows block block-IsMalloc (2 ∷ []) with_variable heap 1 5000 with_variable-Asks
      with_variable-Extends (omega arith) (omega arith, tt) (omega arith) paged

rest_of_page : left_over heap 5000 ≡ record { rg_start = 13192; rg_end = 0x200000 } ∷ []
unfolding enlist_vm_freerg_list
rest_of_page = refl
