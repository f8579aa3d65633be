-- ===== src/Syscall.antt =====
-- The memory system call: src/sys_mem.c, which src/syscall.c reaches under the number 17.
pub mod Find
pub mod Table
use os_lamina_atrium.Base.{
  ℕ, zero, suc, ◌+◌, ◌%◌, ◌^◌, ◌&&◌, Bool, not, Option, none, some, ◌==◌, if◌then◌else◌, get_or, ℤ,
  success, failure, ltb, ◌-◌,
}
use os_lamina_atrium.Words.{u32}
use os_lamina_atrium.Queue.{ProcQueue, null}
use os_lamina_atrium.Memphy.{read, write}
use os_lamina_atrium.Mm.{Caller, M, Malloc}
use os_lamina_atrium.Paging.Range.{vmap_pgd_memset}
use os_lamina_atrium.Vm.{inc_vma_limit, mm_swap_page}

-- The loop of `find_proc_in_queue`, from place `i` on; `pid_of` reads the field of a process.
unfoldable pub find_proc_from : (ℕ → ℕ) → ProcQueue → ℕ → ℕ → ℕ → ℕ
find_proc_from pid_of q pid zero i = null
find_proc_from pid_of q pid (suc rounds) i =
    let next = find_proc_from pid_of q pid rounds (i + 1) in
    let proc = get_or q.proc i null in
    if not (proc == null) && (pid_of proc == pid) then proc else next

unfoldable pub find_proc_in_queue : (ℕ → ℕ) → ProcQueue → ℕ → ℕ
unfolding find_proc_from
find_proc_in_queue pid_of q pid = find_proc_from pid_of q pid q.size 0

-- The fields of `struct sc_regs` that hold arguments of this call.
pub record ScRegs : Type 0 where
  pub a1 : ℕ
  pub a2 : ℕ
  pub a3 : ℕ

-- `SYSMEM_MAP_OP` and so on
abbrev pub map_op : ℕ
map_op = 1

abbrev pub inc_op : ℕ
inc_op = 2

abbrev pub swp_op : ℕ
swp_op = 3

abbrev pub io_read : ℕ
io_read = 4

abbrev pub io_write : ℕ
io_write = 5

-- The system call is done, and leaves its registers as they are.
abbrev done : ScRegs → Option (ℤ × Caller) → Option ((ℤ × ScRegs) × Caller)
done regs none = none
done regs (some (_, c)) = some ((success, regs), c)

-- The `arg_t` of a `BYTE`, which is a signed `char`; a byte in memory is its pattern of 8 bits.
abbrev pub byte_to_arg : ℕ → ℕ
byte_to_arg value = if ltb value (2 ^ 7) then value else value + 2 ^ 64 - 2 ^ 8

-- `MEMPHY_read` of RAM into `a3`; a read that sets no value leaves `value` unset, which is a fault.
unfoldable pub read_ram : ScRegs → M (ℤ × ScRegs)
unfolding read
read_ram regs c = elim (read c.machine.mram regs.a2) [
  | none ↦ none
  | some (_, none, _) ↦ none
  | some (_, some value, mram) ↦ some (
    (success, record regs { a3 = byte_to_arg value }),
    record c { machine = record (c.machine) { mram = mram } },
  )
]

unfoldable pub write_ram : ScRegs → M (ℤ × ScRegs)
unfolding write
write_ram regs c = elim (write c.machine.mram regs.a2 (regs.a3 % 2 ^ 8)) [
  | none ↦ none
  | some (_, mram) ↦
      some ((success, regs), record c { machine = record (c.machine) { mram = mram } })
]

-- `__sys_memmap` for a process that is in one of the two lists (`listed`) or in neither. The number
-- of a process is unique, so the process found is the one that calls. `node` tells whether there is
-- memory for the descriptor that `inc_vma_limit` makes.
unfoldable pub sys_memmap : Malloc → (node listed : Bool) → ScRegs → M (ℤ × ScRegs)
unfolding vmap_pgd_memset inc_vma_limit mm_swap_page read_ram write_ram
sys_memmap malloc node listed regs c =
    let memop = u32 regs.a1 in
    if not listed
    then some ((failure, regs), c)
    else if memop == map_op
    then done regs (vmap_pgd_memset malloc regs.a2 (u32 regs.a3) c)
    else if memop == inc_op
    then done regs (inc_vma_limit malloc node (u32 regs.a2) regs.a3 c)
    else if memop == swp_op
    then done regs (mm_swap_page regs.a2 regs.a3 c)
    else if memop == io_read
    then read_ram regs c
    else if memop == io_write
    then write_ram regs c
    else some ((failure, regs), c)
