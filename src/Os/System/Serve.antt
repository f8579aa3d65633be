-- ===== src/Os/System/Serve.antt =====
-- What a CPU that has chosen its process changes of where the processes are.
use os_lamina_atrium.Base.{
  ℕ, ◌+◌, ◌-◌, ◌^◌, ◌≡◌, refl, sym, subst, inl, inr, Bool, true, false, Option, none, some, ◌==◌,
  if◌then◌else◌, arith, one_if, Bool-cases, Option-cases, ℤ,
}
use os_lamina_atrium.Words.{u32}
use os_lamina_atrium.Queue.{null}
use os_lamina_atrium.Mm.{Machine, update}
use os_lamina_atrium.Sched.Ready.{one_unless_null}
use os_lamina_atrium.Cpu.{Process, run}
use os_lamina_atrium.Cpu.Steps.{Keeps, run_lem}
use os_lamina_atrium.Os.{
  World, Setting, Cpu, slot_over, stopped, run_proc, slot_end, env, Round, serve, serve_first,
}
use os_lamina_atrium.Os.System.{Thread, back}
use os_lamina_atrium.Os.System.Account.{holds, in_hand, Sound, Effect}

-- The effect of a CPU's turn, if it meets no fault, for a CPU that had `f a` of each process and `n`
-- in all.
abbrev pub Turned : World → (ℕ → ℕ) → ℕ → Option (World × Thread) → Type 0
Turned w f n none = Unit
Turned w f n (some (w', t')) = Effect w f n w' (λ a. holds a t') (in_hand t')

-- For a CPU that has its process at hand
abbrev pub TurnedWith : World → ℕ → Option (World × Thread) → Type 0
TurnedWith w p = Turned w (λ a. one_if a p) (one_unless_null p)

pub unchanged : (w : World) (f : ℕ → ℕ) (n : ℕ) → Sound w → Effect w f n w f n
unchanged w f n s = record {
  sound = s;
  none_gained = λ a h. omega arith;
  none_lost = λ small a h. omega arith;
  fewer = omega arith;
}

run-Effect :
    (w : World) (p : ℕ) (proc proc' : Process) (m : Machine) (f : ℕ → ℕ) (n : ℕ)
    → Sound w
    → w.procs p ≡ some proc
    → proc'.prio ≡ proc.prio
    → Effect w f n (record w { procs = update w.procs p (some proc'); machine = m }) f n
run-Effect w p proc proc' m f n s e same = record {
  sound = record {
    sched_valid = s.sched_valid;
    prio_valid = λ a q e'. elim (Bool-cases (a == p)) [
      | inl here ↦ ground (arith, s.prio_valid p proc e)
      | inr other ↦ s.prio_valid a q (ground (arith, other, e'))
    ];
  };
  none_gained = λ a h. ground (arith, e);
  none_lost = λ small a h. ground (arith, e);
  fewer = omega arith;
}

prio_kept :
    (st : Setting) (w : World) (p p' : Process) (stat : ℤ) (m : Machine)
    → run (env st w) p w.machine ≡ some (stat, p', m)
    → p'.prio ≡ p.prio
prio_kept st w p p' stat m e = elim (run_lem (env st w) p w.machine) [
  | inl (_, e') ↦ cc (e, e')
  | inr (_, kept) ↦
      let kept' = subst (Keeps (record p { pc = u32 (p.pc + 1) })) e kept in kept'.prio_kept
]

run_proc-Turned :
    (st : Setting) (w : World) (cpu : Cpu)
    → Sound w
    → TurnedWith w cpu.proc (back (slot_end (run_proc st w cpu)))
unfolding run_proc
run_proc-Turned st w cpu s = elim (Option-cases (w.procs cpu.proc)) [
  | inl none_there ↦
      let fault : run_proc st w cpu ≡ none = rw (run_proc, none_there) refl in rw fault tt
  | inr (p, there) ↦ elim (Option-cases (run (env st w) p w.machine)) [
    | inl none_left ↦
        let fault : run_proc st w cpu ≡ none = rw (run_proc, there, none_left) refl in rw fault tt
    | inr ((stat, p', m), ran) ↦
        let result : run_proc st w cpu
            ≡ some (
              record w { procs = update w.procs cpu.proc (some p'); machine = m },
              record cpu { time_left = u32 (cpu.time_left + 2 ^ 32 - 1) },
            ) =
          rw (run_proc, there, ran) refl in
        subst (λ (r : Option (World × Cpu)). TurnedWith w cpu.proc (back (slot_end r))) (sym result)
          (run-Effect w cpu.proc p p' m (λ a. one_if a cpu.proc) (one_unless_null cpu.proc) s there
            (prio_kept st w p p' stat m ran))
  ]
]

idle-Turned :
    (w : World) (cpu : Cpu)
    → Sound w
    → TurnedWith w cpu.proc (back (some (w, cpu, if w.done then stopped else slot_over)))
idle-Turned w cpu s = go w.done
  where
    go : (b : Bool) → TurnedWith w cpu.proc (back (some (w, cpu, if b then stopped else slot_over)))
    go true = unchanged w (λ a. one_if a cpu.proc) (one_unless_null cpu.proc) s
    go false = unchanged w (λ a. one_if a cpu.proc) (one_unless_null cpu.proc) s

pub serve-Turned :
    (st : Setting) (w : World) (cpu : Cpu) → Sound w → TurnedWith w cpu.proc (back (serve st w cpu))
unfolding serve
serve-Turned st w cpu s = elim (Bool-cases (cpu.proc == null)) [
  | inl absent ↦
      let idle : serve st w cpu ≡ some (w, cpu, if w.done then stopped else slot_over) =
        rw (serve, absent) refl in
      subst (λ (r : Round). TurnedWith w cpu.proc (back r)) (sym idle) (idle-Turned w cpu s)
  | inr present ↦ elim (Bool-cases (cpu.time_left == 0)) [
    | inl over ↦
        let full : Cpu = record cpu { time_left = st.time_slot } in
        let served : serve st w cpu ≡ slot_end (run_proc st w full) =
          rw (serve, present, over) refl in
        subst (λ (r : Round). TurnedWith w cpu.proc (back r)) (sym served)
          (run_proc-Turned st w full s)
    | inr more ↦
        let served : serve st w cpu ≡ slot_end (run_proc st w cpu) =
          rw (serve, present, more) refl in
        subst (λ (r : Round). TurnedWith w cpu.proc (back r)) (sym served)
          (run_proc-Turned st w cpu s)
  ]
]

pub serve_first-Turned :
    (st : Setting) (w : World) (cpu : Cpu)
    → Sound w
    → TurnedWith w cpu.proc (back (serve_first st (w, cpu)))
unfolding serve_first
serve_first-Turned st w cpu s = elim (Bool-cases (cpu.proc == null)) [
  | inl absent ↦
      let idle : serve_first st (w, cpu) ≡ some (w, cpu, slot_over) =
        rw (serve_first, absent) refl in
      subst (λ (r : Round). TurnedWith w cpu.proc (back r)) (sym idle)
        (unchanged w (λ a. one_if a cpu.proc) (one_unless_null cpu.proc) s)
  | inr present ↦
      let served : serve_first st (w, cpu) ≡ serve st w cpu = rw (serve_first, present) refl in
      subst (λ (r : Round). TurnedWith w cpu.proc (back r)) (sym served) (serve-Turned st w cpu s)
]
