-- ===== src/Os/Quantum.antt =====
-- How long a CPU runs a process.
use os_lamina_atrium.Base.{
  ℕ, zero, suc, ◌+◌, ◌-◌, ◌^◌, ◌≤◌, ◌<◌, ◌≡◌, ◌≢◌, refl, sym, ◌∙◌, subst, inl, inr, false, Option,
  none, some, ◌==◌, arith, length, Option-cases, ℤ,
}
use os_lamina_atrium.Words.{u32}
use os_lamina_atrium.Queue.{null}
use os_lamina_atrium.Mm.{Machine, update}
use os_lamina_atrium.Paging.Table.Owner.{update_self}
use os_lamina_atrium.Cpu.{Process, run}
use os_lamina_atrium.Cpu.Steps.{SameProgram, Keeps, run_lem}
use os_lamina_atrium.Os.{
  World, Setting, Cpu, slot_over, stopped, check_status, run_proc, serve, slot_end, env, Round,
  cpu_round,
}
use os_lamina_atrium.Os.Idle.{cpu_rounds}

-- After `n` rounds the CPU still runs the process, `n` instructions further; the scheduler has not
-- been called.
pub record Going (w : World) (cpu : Cpu) (p : Process) (n : ℕ) (w' : World) (cpu' : Cpu)
    : Type 0 where
  pub same_proc : cpu'.proc ≡ cpu.proc
  pub time : cpu'.time_left + n ≡ cpu.time_left
  pub same_sched : w'.sched ≡ w.sched
  pub after : Process
  pub there : w'.procs cpu.proc ≡ some after
  pub further : after.pc ≡ p.pc + n
  pub same_code : after.code ≡ p.code

-- If there is no fault, the rounds end in this way.
abbrev pub Goes : World → Cpu → Process → ℕ → Round → Type 0
Goes w cpu p n none = Unit
Goes w cpu p n (some (w', cpu', end)) = (end ≡ slot_over) × Going w cpu p n w' cpu'

-- The CPU has time left for the process, which has not come to its end.
pub record Busy (w : World) (cpu : Cpu) (p : Process) (n : ℕ) : Type 0 where
  pub at_hand : cpu.proc ≢ null
  pub in_memory : w.procs cpu.proc ≡ some p
  pub time_left : n ≤ cpu.time_left
  pub code_left : p.pc + n ≤ length p.code
  pub time_int : cpu.time_left < 2 ^ 31
  pub code_int : length p.code < 2 ^ 32

-- The instruction that the process is at, if it meets no fault.
ran :
    (st : Setting) (w : World) (cpu : Cpu) (p : Process) (stat : ℤ) (p' : Process) (m : Machine)
    → Busy w cpu p 1
    → run (env st w) p w.machine ≡ some (stat, p', m)
    → SameProgram (record p { pc = u32 (p.pc + 1) }) p'
ran st w cpu p stat p' m b e = elim (run_lem (env st w) p w.machine) [
  | inl (over, _) ↦ absurd (omega (arith, b.code_left))
  | inr (_, kept) ↦ subst (Keeps (record p { pc = u32 (p.pc + 1) })) e kept
]

run_proc-Goes :
    (st : Setting) (w : World) (cpu : Cpu) (p : Process)
    → Busy w cpu p 1
    → Goes w cpu p 1 (slot_end (run_proc st w cpu))
unfolding run_proc
run_proc-Goes st w cpu p b = elim (Option-cases (run (env st w) p w.machine)) [
  | inl e ↦
      let fault : run_proc st w cpu ≡ none = rw (run_proc, b.in_memory, e) refl in
      subst (λ (r : Option (World × Cpu)). Goes w cpu p 1 (slot_end r)) (sym fault) tt
  | inr ((stat, p', m), e) ↦
      let kept = ran st w cpu p stat p' m b e in
      let w' : World = record w { procs = update w.procs cpu.proc (some p'); machine = m } in
      let cpu' : Cpu = record cpu { time_left = u32 (cpu.time_left + 2 ^ 32 - 1) } in
      let result : run_proc st w cpu ≡ some (w', cpu') = rw (run_proc, b.in_memory, e) refl in
      subst (λ (r : Option (World × Cpu)). Goes w cpu p 1 (slot_end r)) (sym result)
        (
          refl,
          record {
            same_proc = refl;
            time = omega (arith, b.time_left, b.time_int);
            same_sched = refl;
            after = p';
            there = update_self w.procs cpu.proc (some p');
            further = omega (arith, kept.pc_kept, b.code_left, b.code_int);
            same_code = kept.code_kept;
          },
        )
]

round-Goes :
    (st : Setting) (w : World) (cpu : Cpu) (p : Process)
    → Busy w cpu p 1
    → Goes w cpu p 1 (cpu_round st w cpu)
unfolding cpu_round check_status serve
round-Goes st w cpu p b =
    let present : (cpu.proc == null) ≡ false = ground (arith, b.at_hand) in
    let unfinished : (p.pc == length p.code) ≡ false = ground (arith, b.code_left) in
    let more : (cpu.time_left == 0) ≡ false = ground (arith, b.time_left) in
    rw (cpu_round, present, b.in_memory, unfinished, more, present, more)
      (run_proc-Goes st w cpu p b)

-- One round and then `n`.
then_more :
    (w : World) (cpu : Cpu) (p : Process) (n : ℕ) (w' : World) (cpu' : Cpu)
    → (g : Going w cpu p 1 w' cpu') → (r : Round) → Goes w' cpu' g.after n r
    → Goes w cpu p (suc n) r
then_more w cpu p n w' cpu' g none h = tt
then_more w cpu p n w' cpu' g (some (w'', cpu'', end)) (e, h) = (
  e,
  record {
    same_proc = h.same_proc ∙ g.same_proc;
    time = omega (arith, h.time, g.time);
    same_sched = h.same_sched ∙ g.same_sched;
    after = h.after;
    there = subst (λ (x : ℕ). w''.procs x ≡ some h.after) g.same_proc h.there;
    further = omega (arith, h.further, g.further);
    same_code = h.same_code ∙ g.same_code;
  },
)

-- While a process has not come to its end and its CPU has time left for it, the CPU runs one of its
-- instructions in each round, `n` of them in `n` rounds, and does not call the scheduler, unless an
-- instruction meets a fault.
pub cpu_rounds-Goes :
    (st : Setting) (n : ℕ) (w : World) (cpu : Cpu) (p : Process)
    → Busy w cpu p n
    → Goes w cpu p n (cpu_rounds n st w cpu)
unfolding cpu_rounds
cpu_rounds-Goes st zero w cpu p b = (
  refl,
  record {
    same_proc = refl;
    time = omega arith;
    same_sched = refl;
    after = p;
    there = b.in_memory;
    further = omega arith;
    same_code = refl;
  },
)
cpu_rounds-Goes st (suc n) w cpu p b =
    step (cpu_round st w cpu) refl
      (round-Goes st w cpu p (record {
        at_hand = b.at_hand;
        in_memory = b.in_memory;
        time_left = omega (arith, b.time_left);
        code_left = omega (arith, b.code_left);
        time_int = b.time_int;
        code_int = b.code_int;
      }))
      (cpu_rounds-Goes st n)
  where
    step :
        (r : Round)
        → cpu_round st w cpu ≡ r
        → Goes w cpu p 1 r
        → ((w' : World) (cpu' : Cpu) (p' : Process)
            → Busy w' cpu' p' n
            → Goes w' cpu' p' n (cpu_rounds n st w' cpu'))
        → Goes w cpu p (suc n) (cpu_rounds (suc n) st w cpu)
    step none e h ih =
        let fault : cpu_rounds (suc n) st w cpu ≡ none = rw (cpu_rounds, e) refl in
        subst (Goes w cpu p (suc n)) (sym fault) tt
    step (some (w', cpu', stopped)) e (h, _) ih = cc (h)
    step (some (w', cpu', slot_over)) e (_, g) ih =
        let next : cpu_rounds (suc n) st w cpu ≡ cpu_rounds n st w' cpu' =
          rw (cpu_rounds, e) refl in
        subst (Goes w cpu p (suc n)) (sym next) (
          then_more w cpu p n w' cpu' g (cpu_rounds n st w' cpu') (
            ih w' cpu' g.after (record {
              at_hand = λ null_proc. b.at_hand (sym g.same_proc ∙ null_proc);
              in_memory = subst (λ (x : ℕ). w'.procs x ≡ some g.after) (sym g.same_proc) g.there;
              time_left = omega (arith, b.time_left, g.time);
              code_left = rw (g.same_code) (omega (arith, b.code_left, g.further));
              time_int = omega (arith, b.time_int, g.time);
              code_int = rw (g.same_code) b.code_int;
            })))
