-- ===== src/Mem/Instructions.antt =====
-- The instructions of src/cpu.c over the memory of src/mem.c, which `run` calls without `MM_PAGING`.
use os_lamina_atrium.Base.{ℕ, ◌+◌, List, Option, none, some, ◌==◌, if◌then◌else◌, get_elem?, set}
use os_lamina_atrium.Words.{u64}
use os_lamina_atrium.Mem.{Mem, Segments, alloc_mem, free_mem, read_mem, write_mem}

-- A process, with its registers; an index past the registers is a fault.
pub record Registers : Type 0 where
  pub regs : List ℕ
  pub segments : Segments

unfoldable pub alloc : ℕ → ℕ → Registers → Option (ℕ × Registers)
unfolding alloc_mem
alloc size reg_index proc =
    let (addr, segments) = alloc_mem size proc.segments in
    let proc' : Registers = record proc { segments = segments } in
    if addr == 0 then some (1, proc') else elim (get_elem? proc.regs reg_index) [
      | none ↦ none
      | some _ ↦ some (0, record proc' { regs = set proc.regs reg_index addr })
    ]

unfoldable pub free_data : ℕ → Registers → Option ℕ
unfolding free_mem
free_data reg_index proc = elim (get_elem? proc.regs reg_index) [
  | none ↦ none
  | some addr ↦ some (free_mem addr proc.segments)
]

-- The byte that `read_mem` has stored, or what the local variable `data` held
abbrev byte_or : Option ℕ → ℕ → ℕ
byte_or none byte = byte
byte_or (some b) byte = b

-- `physical_addr` and `byte` are what local variables hold that nothing has set.
unfoldable pub read :
    (physical_addr byte source offset destination : ℕ) → Registers → Mem → Option (ℕ × Registers)
unfolding read_mem
read physical_addr byte source offset destination proc m = elim (get_elem? proc.regs source) [
  | none ↦ none
  | some addr ↦ elim (read_mem physical_addr (u64 (addr + offset)) proc.segments m) [
    | none ↦ none
    | some (stat, loaded) ↦
        if stat == 0 then some (1, proc) else elim (get_elem? proc.regs destination) [
          | none ↦ none
          | some _ ↦
              some (0, record proc { regs = set proc.regs destination (byte_or loaded byte) })
        ]
  ]
]

unfoldable pub write :
    (physical_addr value destination offset : ℕ) → Registers → Mem → Option (ℕ × Mem)
unfolding write_mem
write physical_addr value destination offset proc m = elim (get_elem? proc.regs destination) [
  | none ↦ none
  | some addr ↦ write_mem physical_addr (u64 (addr + offset)) proc.segments value m
]
