-- ===== src/Libmem/Access.antt =====
-- The routines of src/libmem.c that an instruction calls: liballoc, libfree, libread and libwrite, and
-- the access to a page. `__read` and `__write` do not look at the result of the access.
use os_lamina_atrium.Base.{
  ℕ, ◌+◌, Bool, List, Option, none, some, ◌==◌, leb, if◌then◌else◌, set, ℤ, pos, negsuc, success,
  failure,
}
use os_lamina_atrium.Words.{int_to_addr, u32, genmask, getval}
use os_lamina_atrium.Memphy.{get_freefp}
use os_lamina_atrium.Mm.{Caller, M, Malloc}
use os_lamina_atrium.Pages.{enlist_pgn_node, find_victim_page}
use os_lamina_atrium.Paging.Pte.{paging_page_present, paging_fpn}
use os_lamina_atrium.Paging.Table.{pte_get_entry}
use os_lamina_atrium.Vm.{find_area}
use os_lamina_atrium.Libmem.{get_symrg_byid, alloc, free}

unfoldable pub liballoc : Malloc → (node listed : Bool) → (size reg_index : ℕ) → M ℤ
unfolding alloc
liballoc malloc node listed size reg_index c = elim (alloc malloc node listed 0 reg_index size c) [
  | none ↦ none
  | some (none, c') ↦ some (failure, c')
  | some (some _, c') ↦ some (success, c')
]

-- `libfree`, with the registers of the process
unfoldable pub libfree : Bool → (reg_index : ℕ) → List ℕ → M (ℤ × List ℕ)
unfolding free
libfree node reg_index regs c =
    if leb 10 reg_index then some ((failure, regs), c) else elim (free node reg_index c) [
      | none ↦ none
      | some (negsuc _, c') ↦ some ((failure, regs), c')
      | some (pos _, c') ↦ some ((success, set regs reg_index 0), c')
    ]

-- What `pg_getpage` does for a page that is not present: the victim leaves the list, a frame of the
-- swap device is taken, and the page is listed. Nothing is copied, and no entry is written.
unfoldable pub bring_in : ℕ → M ℤ
unfolding find_victim_page get_freefp enlist_pgn_node
bring_in pgn c = elim (find_victim_page c.mm.fifo_pgn) [
  | none ↦ some (failure, c)
  | some (vicpgn, kept) ↦
      let out : Caller = record c { mm = record (c.mm) { fifo_pgn = kept } } in
      elim (get_freefp c.machine.active_mswp) [
        | none ↦ some (failure, out)
        | some (swpfpn, mswp) ↦ some (
          success,
          record {
            mm = record (c.mm) { fifo_pgn = (enlist_pgn_node kept pgn).1 };
            machine = record (c.machine) { active_mswp = mswp };
          },
        )
      ]
]

-- The end of `pg_getpage`: the frame of the page's entry, which is read once more.
unfoldable pub page_frame : Malloc → ℕ → M (Option ℕ)
unfolding pte_get_entry paging_fpn
page_frame malloc pgn c = elim (pte_get_entry malloc (int_to_addr pgn) c) [
  | none ↦ none
  | some (pte, c') ↦ some (some (paging_fpn pte), c')
]

-- `pg_getpage`: the frame, or `none` for the result -1; `pgn` is the pattern of an `int`
unfoldable pub pg_getpage : Malloc → ℕ → M (Option ℕ)
unfolding pte_get_entry paging_page_present bring_in page_frame
pg_getpage malloc pgn c = elim (pte_get_entry malloc (int_to_addr pgn) c) [
  | none ↦ none
  | some (pte, c') ↦
      if paging_page_present pte == 0
      then elim (bring_in (int_to_addr pgn) c') [
        | none ↦ none
        | some (negsuc _, c'') ↦ some (none, c'')
        | some (pos _, c'') ↦ page_frame malloc pgn c''
      ]
      else page_frame malloc pgn c'
]

-- `PAGING_PGN(x)`
unfoldable pub paging_pgn : ℕ → ℕ
paging_pgn x = getval x (genmask 21 8) 8

-- `pg_getval` and `pg_setval`, which do the same: no byte is read or written.
unfoldable pub pg_getval : Malloc → ℕ → M ℤ
unfolding pg_getpage paging_pgn
pg_getval malloc addr c = elim (pg_getpage malloc (paging_pgn addr) c) [
  | none ↦ none
  | some (none, c') ↦ some (failure, c')
  | some (some _, c') ↦ some (success, c')
]

unfoldable pub pg_setval : Malloc → ℕ → M ℤ
unfolding pg_getpage paging_pgn
pg_setval malloc addr c = elim (pg_getpage malloc (paging_pgn addr) c) [
  | none ↦ none
  | some (none, c') ↦ some (failure, c')
  | some (some _, c') ↦ some (success, c')
]

-- `__read`, which reads through the region's descriptor without a test, and `libread`: `byte` is
-- what the byte `data` of `libread`, which nothing writes, happens to hold.
unfoldable pub read : Malloc → (rgid offset : ℕ) → M ℤ
unfolding get_symrg_byid pg_getval
read malloc rgid offset c = elim (get_symrg_byid c.mm rgid) [
  | none ↦ none
  | some currg ↦ elim (pg_getval malloc (u32 (currg.rg_start + offset)) c) [
    | none ↦ none
    | some (_, c') ↦ some (success, c')
  ]
]

unfoldable pub libread : Malloc → (byte source offset : ℕ) → M (ℤ × ℕ)
unfolding read
libread malloc byte source offset c = elim (read malloc source offset c) [
  | none ↦ none
  | some (val, c') ↦ some ((val, byte), c')
]

-- `__write`
unfoldable pub write : Malloc → (vmaid rgid offset : ℕ) → M ℤ
unfolding get_symrg_byid pg_setval
write malloc vmaid rgid offset c = elim (find_area c.mm.mmap vmaid) [
  | none ↦ none
  | some none ↦ some (failure, c)
  | some (some _) ↦ elim (get_symrg_byid c.mm rgid) [
    | none ↦ some (failure, c)
    | some currg ↦ elim (pg_setval malloc (u32 (currg.rg_start + offset)) c) [
      | none ↦ none
      | some (_, c') ↦ some (success, c')
    ]
  ]
]

-- `libwrite`; the byte to write goes no further than `pg_setval`.
unfoldable pub libwrite : Malloc → (destination offset : ℕ) → M ℤ
unfolding write
libwrite malloc destination offset c = elim (write malloc 0 destination offset c) [
  | none ↦ none
  | some (negsuc _, c') ↦ some (failure, c')
  | some (pos _, c') ↦ some (success, c')
]
