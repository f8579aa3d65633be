-- ===== src/Cpu/Steps.antt =====
-- What one instruction leaves of its process.
use os_lamina_atrium.Base.{
  ℕ, List, ◌+◌, ◌≤◌, ◌<◌, ◌≡◌, refl, ◌⊎◌, inl, inr, Option, none, some, get_elem?, get_elem?-none,
  get_elem?-some, length, ℤ, pos, Option-cases,
}
use os_lamina_atrium.Words.{u32}
use os_lamina_atrium.Mm.{Machine, Caller}
use os_lamina_atrium.Cpu.{
  Opcode, calc, alloc, free, read, write, syscall, Inst, Process, Ran, Env, returned, returned_read,
  returned_regs, execute, run,
}

-- The program and its place are those of `p`; its number and priority too.
pub record SameProgram (p p' : Process) : Type 0 where
  pub pid_kept : p'.pid ≡ p.pid
  pub prio_kept : p'.prio ≡ p.prio
  pub code_kept : p'.code ≡ p.code
  pub pc_kept : p'.pc ≡ p.pc

-- What holds of the process, if there is a result.
abbrev pub Keeps : Process → Ran → Type 0
Keeps p none = Unit
Keeps p (some (stat, p', m)) = SameProgram p p'

Keeps-returned : (p : Process) (r : Option (ℤ × Caller)) → Keeps p (returned p r)
Keeps-returned p none = tt
Keeps-returned p (some (stat, c)) = record {
  pid_kept = refl;
  prio_kept = refl;
  code_kept = refl;
  pc_kept = refl;
}

Keeps-returned_read : (p : Process) (r : Option ((ℤ × ℕ) × Caller)) → Keeps p (returned_read p r)
Keeps-returned_read p none = tt
Keeps-returned_read p (some ((stat, _), c)) = record {
  pid_kept = refl;
  prio_kept = refl;
  code_kept = refl;
  pc_kept = refl;
}

Keeps-returned_regs :
    (p : Process) (r : Option ((ℤ × List ℕ) × Caller)) → Keeps p (returned_regs p r)
Keeps-returned_regs p none = tt
Keeps-returned_regs p (some ((stat, regs), c)) = record {
  pid_kept = refl;
  prio_kept = refl;
  code_kept = refl;
  pc_kept = refl;
}

Keeps-execute :
    (env : Env) (op : Opcode) (ins : Inst) (p : Process) (m : Machine)
    → Keeps p (execute env op ins p m)
unfolding execute
Keeps-execute env calc ins p m = record {
  pid_kept = refl;
  prio_kept = refl;
  code_kept = refl;
  pc_kept = refl;
}
Keeps-execute env alloc ins p m = Keeps-returned p _
Keeps-execute env free ins p m = Keeps-returned_regs p _
Keeps-execute env read ins p m = Keeps-returned_read p _
Keeps-execute env write ins p m = Keeps-returned p _
Keeps-execute env syscall ins p m = Keeps-returned p _

-- At the end of its program a process gets the result 1, and nothing changes. Before the end, if the
-- instruction at its place meets no fault, the process stands one place further, with the
-- same program, number and priority.
pub run_lem :
    (env : Env) (p : Process) (m : Machine)
    → ((length p.code ≤ p.pc) × (run env p m ≡ some (pos 1, p, m)))
      ⊎ ((p.pc < length p.code) × Keeps (record p { pc = u32 (p.pc + 1) }) (run env p m))
unfolding run
run_lem env p m = elim (Option-cases (get_elem? p.code p.pc)) [
  | inl e ↦ inl (get_elem?-none p.code p.pc e, rw (e, run) refl)
  | inr (ins, e) ↦ inr (
    get_elem?-some p.code p.pc ins e,
    rw (e, run) (Keeps-execute env ins.opcode ins (record p { pc = u32 (p.pc + 1) }) m),
  )
]
