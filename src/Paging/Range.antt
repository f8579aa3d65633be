-- ===== src/Paging/Range.antt =====
-- Ranges of pages in src/mm64.c: frames for them, their entries, and the start of a process's memory.
-- Where the code does not test the result of `malloc` for a list's descriptor, there is memory.
pub mod Frames
pub mod Entries
pub mod Mapping
pub mod Ram
use os_lamina_atrium.Base.{
  ℕ, zero, suc, ◌+◌, ◌-◌, ◌*◌, ◌/◌, ◌^◌, ◌||◌, Bool, List, [], ◌∷◌, none, some, ◌==◌, ltb, leb,
  if◌then◌else◌, get_or, set, replicate, ℤ, success, failure,
}
use os_lamina_atrium.Words.{u64, u32, int_to_addr, or_zero, div_round_up}
use os_lamina_atrium.Memphy.{Memphy, get_freefp, frame_size}
use os_lamina_atrium.Mm.{Region, VmArea, Mm, Caller, M, Malloc, update}
use os_lamina_atrium.Pages.{enlist_pgn_node}
use os_lamina_atrium.Regions.{max_symtbl_sz}
use os_lamina_atrium.Paging.Addr.{get_pd_from_pagenum, page_size, pt_shift}
use os_lamina_atrium.Paging.Table.{zeros, table_bytes, pte_change, pte_set_fpn}

abbrev pub pattern : ℕ
pattern = 0xdeadbeef

-- The loop of `vmap_pgd_memset`: pages `pgn`, `pgn + 1` and so on, in `rounds` rounds. It stores
-- through the pointer that the walk gives, as `pte_change` does.
unfoldable pub vmap_pgd_loop : Malloc → ℕ → ℕ → M ℤ
unfolding pte_change
vmap_pgd_loop malloc pgn zero c = some (success, c)
vmap_pgd_loop malloc pgn (suc rounds) c = elim (pte_change malloc pgn (λ pte. pattern) c) [
  | none ↦ none
  | some (_, c') ↦ vmap_pgd_loop malloc (u64 (pgn + 1)) rounds c'
]

-- `pgnum` is the pattern of an `int`, negative from 2 ^ 31 on.
unfoldable pub vmap_pgd_memset : Malloc → ℕ → ℕ → M ℤ
unfolding vmap_pgd_loop
vmap_pgd_memset malloc addr pgnum = vmap_pgd_loop malloc (addr / 2 ^ pt_shift) (or_zero pgnum)

-- `pgnum * PAGING_PAGESZ`, an `int`, which wraps around from 2 ^ 23 pages on, made an `addr_t`
abbrev pub byte_count : ℕ → ℕ
byte_count pgnum = int_to_addr (u32 (pgnum * frame_size))

-- One of the arrays `used_pgd` and so on after its entry `i` has been used, and the bytes counted.
abbrev pub mark : List ℕ → ℕ → List ℕ × ℕ
mark used i = if get_or used i 1 == 0 then (set used i 1, 8) else (used, 0)

unfoldable pub multi_level_helper : Mm → ℕ → Mm
unfolding get_pd_from_pagenum
multi_level_helper mm pgn =
    let d = get_pd_from_pagenum pgn in
    let (pgd, pgd_bytes) = mark mm.used_pgd d.pgd in
    let (p4d, p4d_bytes) = mark mm.used_p4d d.p4d in
    let (pud, pud_bytes) = mark mm.used_pud d.pud in
    let (pmd, pmd_bytes) = mark mm.used_pmd d.pmd in
    let (pt, pt_bytes) = mark mm.used_pt d.pt in
    record mm {
      used_pgd = pgd;
      used_p4d = p4d;
      used_pud = pud;
      used_pmd = pmd;
      used_pt = pt;
      byte_counter =
          u64 (mm.byte_counter + pgd_bytes + p4d_bytes + pud_bytes + pmd_bytes + pt_bytes);
      access_counter = u64 (mm.access_counter + 5);
    }

-- The loop of `vmap_page_range`, with `rounds` rounds left; it ends early with the list of frames.
unfoldable pub map_frames : Malloc → ℕ → ℕ → List ℕ → M ℤ
unfolding pte_set_fpn multi_level_helper enlist_pgn_node
map_frames malloc zero pgn frames c = some (success, c)
map_frames malloc (suc rounds) pgn [] c = some (success, c)
map_frames malloc (suc rounds) pgn (fpn ∷ frames) c = elim (pte_set_fpn malloc pgn fpn c) [
  | none ↦ none
  | some (_, c') ↦
      let mm = multi_level_helper c'.mm pgn in
      let listed = record mm { fifo_pgn = (enlist_pgn_node mm.fifo_pgn pgn).1 } in
      map_frames malloc rounds (u64 (pgn + 1)) frames (record c' { mm = listed })
]

-- `vmap_page_range`: the mapped region. `pgnum` is the pattern of an `int`.
unfoldable pub vmap_page_range : Malloc → ℕ → ℕ → List ℕ → M Region
unfolding map_frames
vmap_page_range malloc addr pgnum frames c =
    elim (map_frames malloc (or_zero pgnum) (addr / 2 ^ pt_shift) frames c) [
      | none ↦ none
      | some (_, c') ↦ some (record { rg_start = addr; rg_end = u64 (addr + byte_count pgnum) }, c')
    ]

-- `(addr_t)-1` and `(addr_t)-3000`
abbrev pub addr_failure : ℕ
addr_failure = 2 ^ 64 - 1

abbrev pub out_of_memory : ℕ
out_of_memory = 2 ^ 64 - 3000

-- The loop of `alloc_pages_range`, with the frames of the earlier rounds: the result, the list of
-- frames, and the device.
unfoldable pub take_frames : ℕ → Memphy → List ℕ → ℕ × List ℕ × Memphy
unfolding get_freefp
take_frames zero mram frm_lst = (0, frm_lst, mram)
take_frames (suc rounds) mram frm_lst = elim (get_freefp mram) [
  | none ↦ (out_of_memory, [], mram)
  | some (fpn, mram') ↦ take_frames rounds mram' (fpn ∷ frm_lst)
]

-- `req_pgnum` is the pattern of an `int`: a negative one runs no round.
unfoldable pub alloc_pages_range : ℕ → Memphy → ℕ × List ℕ × Memphy
unfolding take_frames
alloc_pages_range req_pgnum mram = take_frames (or_zero req_pgnum) mram []

-- `vm_map_ram`, where `incpgnum` is the pattern of an `int`, negative from 2 ^ 31 on; the result is
-- of type `addr_t`.
unfoldable pub vm_map_ram : Malloc → ℕ → ℕ → ℕ → ℕ → M ℕ
unfolding alloc_pages_range vmap_page_range
vm_map_ram malloc astart aend mapstart incpgnum c =
    if leb aend astart
      || leb (2 ^ 31) incpgnum
      || (incpgnum == 0)
      || ltb mapstart astart
      || ltb aend (u64 (mapstart + byte_count incpgnum))
    then some (addr_failure, c)
    else let (ret_alloc, frm_lst, mram) = alloc_pages_range incpgnum c.machine.mram in
      let c' : Caller = record c { machine = record (c.machine) { mram = mram } } in
      if ret_alloc == out_of_memory
      then some (addr_failure, c')
      else elim (vmap_page_range malloc mapstart incpgnum frm_lst c') [
        | none ↦ none
        | some (_, c'') ↦ some (0, c'')
      ]

-- `PAGING64_MAX_PGN`
abbrev pub max_pgn : ℕ
max_pgn = div_round_up (2 ^ 21) page_size

abbrev first_area : VmArea
first_area = record {
  vm_id = 0;
  vm_start = 0;
  vm_end = max_pgn * page_size;
  sbrk = 0;
  freerg_list = [];
}

-- `init_mm`, where `node` tells whether there is memory for the area.
unfoldable pub init_mm : Malloc → Bool → M ℤ
init_mm malloc node c =
    if node
    then elim (malloc c.machine.tables) [
      | none ↦ some (failure, record c { mm = record (c.mm) { pgd = 0 } })
      | some pgd ↦ some (
        success,
        record {
          mm = record {
            pgd = pgd;
            used_pgd = replicate 512 0;
            used_p4d = replicate 512 0;
            used_pud = replicate 512 0;
            used_pmd = replicate 512 0;
            used_pt = replicate 512 0;
            access_counter = 0;
            byte_counter = 0;
            mmap = first_area ∷ [];
            symrgtbl = replicate max_symtbl_sz (record { rg_start = 0; rg_end = 0 });
            fifo_pgn = [];
          };
          machine = record (c.machine) {
            tables = update c.machine.tables pgd (some zeros);
            total_storage_bytes = u64 (c.machine.total_storage_bytes + table_bytes);
          };
        },
      )
    ]
    else some (failure, c)
