-- ===== src/Libmem/Collect.antt =====
-- `free_pcb_memph` of src/libmem.c, which nothing calls: it gives back the frames of a process, taking
-- the first table of its directories for a table of pages.
use os_lamina_atrium.Base.{
  ℕ, zero, suc, ◌+◌, ◌<◌, ◌≤◌, ◌≡◌, refl, none, some, inl, inr, ◌==◌, leb, if◌then◌else◌, arith,
  Bool-cases, Option-cases, ℤ, success,
}
use os_lamina_atrium.Words.{u32, bit, div_round_up}
use os_lamina_atrium.Memphy.{put_freefp, frame_size}
use os_lamina_atrium.Mm.{Caller, M}
use os_lamina_atrium.Paging.Pte.{paging_page_present, paging_fpn, paging_swp}

-- `PAGING_MAX_PGN`
abbrev paging_max_pgn : ℕ
paging_max_pgn = div_round_up (bit 22) frame_size

-- The number of entries of a table
abbrev table_size : ℕ
table_size = 512

-- The frame of an entry, back to RAM or to the swap device
unfoldable pub put_back : ℕ → Caller → Caller
unfolding paging_page_present paging_fpn paging_swp put_freefp
put_back pte c =
    if paging_page_present pte == 0
    then record c {
      machine = record (c.machine) {
        active_mswp = put_freefp c.machine.active_mswp (paging_swp pte);
      };
    }
    else record c {
      machine = record (c.machine) { mram = put_freefp c.machine.mram (paging_fpn pte) };
    }

-- The loop from page `pagenum` on; a read past the end of the table is a fault.
unfoldable pub collect : ℕ → ℕ → M ℤ
unfolding put_back
collect zero pagenum c = some (success, c)
collect (suc rounds) pagenum c =
    if leb table_size pagenum then none else elim (c.machine.tables c.mm.pgd) [
      | none ↦ none
      | some pgd ↦ collect rounds (pagenum + 1) (put_back (u32 (pgd pagenum)) c)
    ]

unfoldable pub free_pcb_memph : M ℤ
unfolding collect
free_pcb_memph = collect paging_max_pgn 0

collect-faults :
    (rounds pagenum : ℕ) (c : Caller)
    → pagenum ≤ table_size
    → table_size < pagenum + rounds
    → collect rounds pagenum c ≡ none
unfolding collect
collect-faults zero pagenum c h h' = absurd (omega arith)
collect-faults (suc rounds) pagenum c h h' = elim (Bool-cases (leb table_size pagenum)) [
  | inl past ↦ rw (collect, past) refl
  | inr before ↦ elim (Option-cases (c.machine.tables c.mm.pgd)) [
    | inl e ↦ rw (collect, before, e) refl
    | inr (pgd, e) ↦
        rw (collect, before, e)
          (collect-faults rounds (pagenum + 1) (put_back (u32 (pgd pagenum)) c)
            (ground (arith, before)) (omega arith))
  ]
]

-- It is a fault for every process: the loop has more rounds than the table has entries.
pub free_pcb_memph-faults : (c : Caller) → free_pcb_memph c ≡ none
unfolding free_pcb_memph
free_pcb_memph-faults c = collect-faults paging_max_pgn 0 c (omega arith) (omega arith)
