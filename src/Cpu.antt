-- ===== src/Cpu.antt =====
-- src/cpu.c and the process of include/common.h: one instruction of a process.
pub mod Steps
use os_lamina_atrium.Base.{ℕ, ◌+◌, Bool, List, Option, none, some, get_elem?, ℤ, pos, success}
use os_lamina_atrium.Words.{u32}
use os_lamina_atrium.Mm.{Machine, Mm, Caller, Malloc}
use os_lamina_atrium.Libmem.Access.{liballoc, libfree, libread, libwrite}
use os_lamina_atrium.Syscall.Table.{Kernel, is_listed, libsyscall}

-- `enum ins_opcode_t`
pub data Opcode : Type 0 where
  calc alloc free read write syscall : Opcode

-- `struct inst_t`
pub record Inst : Type 0 where
  pub opcode : Opcode
  pub arg_0 : ℕ
  pub arg_1 : ℕ
  pub arg_2 : ℕ
  pub arg_3 : ℕ

-- `struct pcb_t`, less what nothing reads: the path, the legacy page table and break pointer, and
-- the priority that the file gives.
pub record Process : Type 0 where
  pub pid : ℕ
  pub prio : ℕ
  pub code : List Inst
  pub regs : List ℕ
  pub pc : ℕ
  pub mm : Mm

-- The result, the process and the machine afterwards; `none` is a fault.
abbrev pub Ran : Type 0
Ran = Option (ℤ × Process × Machine)

abbrev caller : Process → Machine → Caller
caller p m = record { mm = p.mm; machine = m }

abbrev returned : Process → Option (ℤ × Caller) → Ran
returned p none = none
returned p (some (stat, c)) = some (stat, record p { mm = c.mm }, c.machine)

-- `libread` stores the byte in the instruction's copy, which is then dropped.
abbrev returned_read : Process → Option ((ℤ × ℕ) × Caller) → Ran
returned_read p none = none
returned_read p (some ((stat, _), c)) = some (stat, record p { mm = c.mm }, c.machine)

abbrev returned_regs : Process → Option ((ℤ × List ℕ) × Caller) → Ran
returned_regs p none = none
returned_regs p (some ((stat, regs), c)) =
    some (stat, record p { mm = c.mm; regs = regs }, c.machine)

-- What the program's environment fixes: `malloc` for tables, whether there is memory for a region's
-- descriptor, the kernel's queues, and the byte that an unset local variable holds.
pub record Env : Type 0 where
  pub malloc : Malloc
  pub node : Bool
  pub kernel : Kernel
  pub byte : ℕ

-- The `switch` of `run`
unfoldable pub execute : Env → Opcode → Inst → Process → Machine → Ran
unfolding liballoc libfree libread libwrite libsyscall is_listed
execute env calc ins p m = some (success, p, m)
execute env alloc ins p m = returned p (
    liballoc env.malloc env.node (is_listed env.kernel p.pid) ins.arg_0 (u32 ins.arg_1)
      (caller p m))
execute env free ins p m = returned_regs p (libfree env.node (u32 ins.arg_0) p.regs (caller p m))
execute env read ins p m =
    returned_read p (libread env.malloc env.byte (u32 ins.arg_0) ins.arg_1 (caller p m))
execute env write ins p m = returned p (libwrite env.malloc (u32 ins.arg_1) ins.arg_2 (caller p m))
execute env syscall ins p m = returned p (
    libsyscall env.malloc env.node env.kernel p.pid (u32 ins.arg_0) ins.arg_1 ins.arg_2 ins.arg_3
      (caller p m))

-- `code->size` is the number of the instructions.
unfoldable pub run : Env → Process → Machine → Ran
unfolding execute
run env p m = elim (get_elem? p.code p.pc) [
  | none ↦ some (pos 1, p, m)
  | some ins ↦ execute env ins.opcode ins (record p { pc = u32 (p.pc + 1) }) m
]
