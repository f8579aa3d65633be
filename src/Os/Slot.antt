-- ===== src/Os/Slot.antt =====
-- The local variables of a CPU's loop, over any number of rounds.
use os_lamina_atrium.Base.{
  ℕ, zero, suc, ◌+◌, ◌-◌, ◌^◌, ◌≤◌, ◌<◌, ◌≡◌, ◌≢◌, refl, sym, subst, ◌⊎◌, inl, inr, Option, none,
  some, ◌==◌, arith, length, Bool-cases, Option-cases,
}
use os_lamina_atrium.Words.{u32}
use os_lamina_atrium.Queue.{null}
use os_lamina_atrium.Mm.{update}
use os_lamina_atrium.Sched.{put_proc}
use os_lamina_atrium.Cpu.{run}
use os_lamina_atrium.Os.{
  World, Setting, Cpu, slot_over, stopped, next_proc, check_status, run_proc, serve, serve_first,
  slot_end, env, Round, cpu_round,
}
use os_lamina_atrium.Os.Idle.{cpu_rounds}

-- The time left is within the time slot of the configuration.
abbrev pub IsInSlot : Setting → Cpu → Type 0
IsInSlot st cpu = cpu.time_left < st.time_slot

-- What holds of the CPU, if there is a result.
abbrev pub EndsInSlot : Setting → Round → Type 0
EndsInSlot st none = Unit
EndsInSlot st (some (w, cpu, end)) = IsInSlot st cpu

run_proc-EndsInSlot :
    (st : Setting) (w : World) (cpu : Cpu)
    → cpu.time_left ≢ 0
    → cpu.time_left ≤ st.time_slot
    → st.time_slot < 2 ^ 31
    → EndsInSlot st (slot_end (run_proc st w cpu))
unfolding run_proc
run_proc-EndsInSlot st w cpu some_left h small = elim (Option-cases (w.procs cpu.proc)) [
  | inl e ↦
      let fault : run_proc st w cpu ≡ none = rw (run_proc, e) refl in subst Fits (sym fault) tt
  | inr (p, e) ↦ elim (Option-cases (run (env st w) p w.machine)) [
    | inl e' ↦
        let fault : run_proc st w cpu ≡ none = rw (run_proc, e, e') refl in
        subst Fits (sym fault) tt
    | inr ((stat, p', machine), e') ↦
        let result : run_proc st w cpu
            ≡ some (
              record w { procs = update w.procs cpu.proc (some p'); machine = machine },
              record cpu { time_left = u32 (cpu.time_left + 2 ^ 32 - 1) },
            ) =
          rw (run_proc, e, e') refl in
        subst Fits (sym result) (omega (arith, some_left))
  ]
]
  where
    Fits : Option (World × Cpu) → Type 0
    Fits r = EndsInSlot st (slot_end r)

serve-EndsInSlot :
    (st : Setting) (w : World) (cpu : Cpu)
    → IsInSlot st cpu
    → st.time_slot < 2 ^ 31
    → EndsInSlot st (serve st w cpu)
unfolding serve
serve-EndsInSlot st w cpu h small = elim (Bool-cases (cpu.proc == null)) [
  | inl e ↦ rw (e) h
  | inr e ↦ elim (Bool-cases (cpu.time_left == 0)) [
    | inl over ↦
        rw (e, over)
          (run_proc-EndsInSlot st w (record cpu { time_left = st.time_slot }) (λ z. ground arith)
            (omega arith) small)
    | inr more ↦ rw (e, more) (run_proc-EndsInSlot st w cpu (λ z. ground arith) (omega arith) small)
  ]
]

serve_first-EndsInSlot :
    (st : Setting) (w : World) (cpu : Cpu)
    → IsInSlot st cpu
    → st.time_slot < 2 ^ 31
    → EndsInSlot st (serve_first st (w, cpu))
unfolding serve_first
serve_first-EndsInSlot st w cpu h small = elim (Bool-cases (cpu.proc == null)) [
  | inl e ↦ rw (serve_first, e) h
  | inr e ↦
      let served : serve_first st (w, cpu) ≡ serve st w cpu = rw (serve_first, e) refl in
      subst (EndsInSlot st) (sym served) (serve-EndsInSlot st w cpu h small)
]

-- The choice of a process leaves the time within the slot.
check_status-IsInSlot :
    (st : Setting) (w : World) (cpu : Cpu)
    → IsInSlot st cpu
    → (check_status w cpu ≡ none)
      ⊎ ((w' : World) × (cpu' : Cpu) × (check_status w cpu ≡ some (w', cpu')) × IsInSlot st cpu')
unfolding check_status next_proc
check_status-IsInSlot st w cpu h = elim (Option-cases (w.procs cpu.proc)) [
  | inl e ↦ inl (rw (check_status, e) refl)
  | inr (p, e) ↦ elim (Bool-cases (p.pc == length p.code)) [
    | inl finished ↦
        let chosen =
          next_proc (record w { procs = update w.procs cpu.proc none })
            (record cpu { time_left = 0 }) in
        inr (chosen.0, chosen.1, rw (check_status, e, finished) refl, omega arith)
    | inr unfinished ↦ elim (Bool-cases (cpu.time_left == 0)) [
      | inr more ↦ inr (w, cpu, rw (check_status, e, unfinished, more) refl, h)
      | inl over ↦ elim (Option-cases (put_proc w.sched cpu.proc p.prio)) [
        | inl e' ↦ inl (rw (check_status, e, unfinished, over, e') refl)
        | inr (sched, e') ↦
            let chosen = next_proc (record w { sched = sched }) cpu in
            inr (chosen.0, chosen.1, rw (check_status, e, unfinished, over, e') refl, h)
      ]
    ]
  ]
]

round-EndsInSlot :
    (st : Setting) (w : World) (cpu : Cpu)
    → IsInSlot st cpu
    → st.time_slot < 2 ^ 31
    → EndsInSlot st (cpu_round st w cpu)
unfolding cpu_round next_proc
round-EndsInSlot st w cpu h small = elim (Bool-cases (cpu.proc == null)) [
  | inl e ↦
      rw (cpu_round, e) (serve_first-EndsInSlot st (next_proc w cpu).0 (next_proc w cpu).1 h small)
  | inr e ↦ elim (check_status-IsInSlot st w cpu h) [
    | inl fault ↦ rw (cpu_round, e, fault) tt
    | inr (w', cpu', e', h') ↦ rw (cpu_round, e, e') (serve-EndsInSlot st w' cpu' h' small)
  ]
]

-- With a time slot below 2 ^ 31, a CPU whose time left is below the time slot still has less than the
-- time slot after any number of rounds: the counter never goes below 0, and no process gets
-- more than one time slot at a time, unless there is a fault.
pub cpu_rounds-EndsInSlot :
    (st : Setting) (n : ℕ) (w : World) (cpu : Cpu)
    → IsInSlot st cpu
    → st.time_slot < 2 ^ 31
    → EndsInSlot st (cpu_rounds n st w cpu)
unfolding cpu_rounds
cpu_rounds-EndsInSlot st zero w cpu h small = h
cpu_rounds-EndsInSlot st (suc n) w cpu h small =
    go (cpu_round st w cpu) refl (round-EndsInSlot st w cpu h small)
      (λ w' cpu' h'. cpu_rounds-EndsInSlot st n w' cpu' h' small)
  where
    go :
        (r : Round)
        → cpu_round st w cpu ≡ r
        → EndsInSlot st r
        → ((w' : World) (cpu' : Cpu) → IsInSlot st cpu' → EndsInSlot st (cpu_rounds n st w' cpu'))
        → EndsInSlot st (cpu_rounds (suc n) st w cpu)
    go none e h' ih = rw (cpu_rounds, e) tt
    go (some (w', cpu', stopped)) e h' ih = rw (cpu_rounds, e) h'
    go (some (w', cpu', slot_over)) e h' ih = rw (cpu_rounds, e) (ih w' cpu' h')
