-- ===== src/Os/System/Faults.antt =====
-- Where the CPUs of src/os.c can meet a fault, while all threads take turns.
use os_lamina_atrium.Base.{
  ℕ, Bool, true, false, if◌then◌else◌, ◌+◌, ◌-◌, ◌^◌, ◌≡◌, ◌≢◌, refl, sym, ap, ◌∙◌, ◌⊎◌, inl, inr,
  List, Option, none, some, ◌==◌, ==_iff, arith, get_elem?, set, All, Bool-cases, Option-cases,
}
use os_lamina_atrium.Queue.{null}
use os_lamina_atrium.Words.{u32}
use os_lamina_atrium.Mm.{update}
use os_lamina_atrium.Cpu.{Process, run}
use os_lamina_atrium.Os.{
  World, Setting, Cpu, env, slot_over, stopped, run_proc, slot_end, serve, serve_first,
}
use os_lamina_atrium.Os.System.{
  Place, at_top, at_first, at_reload, at_recheck, at_exit, Thread, release_proc, reload, back,
  cpu_step, System, Turn, cpu_turn, turn, turns,
}
use os_lamina_atrium.Os.System.Account.{live, Sound}
use os_lamina_atrium.Os.System.Places.{Has-alone}
use os_lamina_atrium.Os.System.Turns.{release_proc-Turned}
use os_lamina_atrium.Os.System.Loading.{IsFresh, IsPrio}
use os_lamina_atrium.Os.System.Safety.{turns-IsSafe}
use os_lamina_atrium.Memphy.{Memphy}
use os_lamina_atrium.Os.Boot.{Config, main}

-- The instruction that the process is at meets a fault.
abbrev pub FaultsIn : Setting → World → ℕ → Type 0
FaultsIn st w a = (p : Process) × (w.procs a ≡ some p) × (run (env st w) p w.machine ≡ none)

-- A process at hand is in memory.
abbrev pub IsThere : World → ℕ → Type 0
IsThere w a = (a ≡ null) ⊎ ((p : Process) × (w.procs a ≡ some p))

run_proc-FaultsIn :
    (st : Setting) (w : World) (cpu : Cpu) (p : Process)
    → w.procs cpu.proc ≡ some p
    → back (slot_end (run_proc st w cpu)) ≡ none
    → FaultsIn st w cpu.proc
unfolding run_proc
run_proc-FaultsIn st w cpu p there e = elim (Option-cases (run (env st w) p w.machine)) [
  | inl fault ↦ (p, there, fault)
  | inr ((stat, p', m), ran) ↦
      let after : World × Cpu = (
        record w { procs = update w.procs cpu.proc (some p'); machine = m },
        record cpu { time_left = u32 (cpu.time_left + 2 ^ 32 - 1) },
      ) in
      let left : run_proc st w cpu ≡ some after = rw (run_proc, there, ran) refl in
      absurd (some_back after (ap (λ (r : Option (World × Cpu)). back (slot_end r)) (sym left) ∙ e))
]
  where
    some_back : (r : World × Cpu) → back (slot_end (some r)) ≢ none
    some_back (w', cpu') e' = cc (e')

serve-FaultsIn :
    (st : Setting) (w : World) (cpu : Cpu)
    → IsThere w cpu.proc
    → back (serve st w cpu) ≡ none
    → FaultsIn st w cpu.proc
unfolding serve
serve-FaultsIn st w cpu there e = elim (Bool-cases (cpu.proc == null)) [
  | inl absent ↦
      let idle : serve st w cpu ≡ some (w, cpu, if w.done then stopped else slot_over) =
        rw (serve, absent) refl in
      absurd (idle_back w.done (ap back (sym idle) ∙ e))
  | inr present ↦ elim there [
    | inl is_null ↦ absurd (ground (arith, present, is_null))
    | inr (p, there') ↦ elim (Bool-cases (cpu.time_left == 0)) [
      | inl over ↦
          let full : Cpu = record cpu { time_left = st.time_slot } in
          let served : serve st w cpu ≡ slot_end (run_proc st w full) =
            rw (serve, present, over) refl in
          run_proc-FaultsIn st w full p there' (ap back (sym served) ∙ e)
      | inr more ↦
          let served : serve st w cpu ≡ slot_end (run_proc st w cpu) =
            rw (serve, present, more) refl in
          run_proc-FaultsIn st w cpu p there' (ap back (sym served) ∙ e)
    ]
  ]
]
  where
    idle_back : (b : Bool) → back (some (w, cpu, if b then stopped else slot_over)) ≢ none
    idle_back true e' = cc (e')
    idle_back false e' = cc (e')

serve_first-FaultsIn :
    (st : Setting) (w : World) (cpu : Cpu)
    → IsThere w cpu.proc
    → back (serve_first st (w, cpu)) ≡ none
    → FaultsIn st w cpu.proc
unfolding serve_first
serve_first-FaultsIn st w cpu there e = elim (Bool-cases (cpu.proc == null)) [
  | inl absent ↦
      let idle : serve_first st (w, cpu) ≡ some (w, cpu, slot_over) =
        rw (serve_first, absent) refl in
      let no_fault : some (w, record { cpu = cpu; place = at_top }) ≡ none =
        ap back (sym idle) ∙ e in
      cc (no_fault)
  | inr present ↦
      let served : serve_first st (w, cpu) ≡ serve st w cpu = rw (serve_first, present) refl in
      serve-FaultsIn st w cpu there (ap back (sym served) ∙ e)
]

-- A CPU at the top of its loop meets no fault.
top_no_fault :
    (st : Setting) (w : World) (cpu : Cpu)
    → Sound w
    → IsThere w cpu.proc
    → cpu_step st w at_top cpu ≢ none
unfolding cpu_step
top_no_fault st w cpu s there e = elim (Bool-cases (cpu.proc == null)) [
  | inl absent ↦
      let loaded : cpu_step st w at_top cpu ≡ some (reload w cpu at_first) =
        rw (cpu_step, absent) refl in
      cc (loaded, e)
  | inr present ↦ elim there [
    | inl is_null ↦ absurd (ground (arith, present, is_null))
    | inr (p, there') ↦
        let (w', t', e', _) = release_proc-Turned w cpu p s (λ z. ground (arith, present)) there' in
        let released : cpu_step st w at_top cpu ≡ release_proc w cpu =
          rw (cpu_step, present) refl in
        cc (released, e', e)
  ]
]

-- Where a CPU is when it runs an instruction.
abbrev pub Runs : Place → Type 0
Runs place = (place ≡ at_first) ⊎ (place ≡ at_recheck)

cpu_step-FaultsIn :
    (st : Setting) (w : World) (place : Place) (cpu : Cpu)
    → Sound w
    → (place ≢ at_reload → IsThere w cpu.proc)
    → cpu_step st w place cpu ≡ none
    → Runs place × FaultsIn st w cpu.proc
unfolding cpu_step
cpu_step-FaultsIn st w at_top cpu s there e =
    absurd (top_no_fault st w cpu s (there (λ same. cc (same))) e)
cpu_step-FaultsIn st w at_first cpu s there e =
    (inl refl, serve_first-FaultsIn st w cpu (there (λ same. cc (same))) e)
cpu_step-FaultsIn st w at_reload cpu s there e = cc (e)
cpu_step-FaultsIn st w at_recheck cpu s there e =
    (inr refl, serve-FaultsIn st w cpu (there (λ same. cc (same))) e)
cpu_step-FaultsIn st w at_exit cpu s there e = cc (e)

live-some : (o : Option Process) → live o ≡ 1 → (p : Process) × (o ≡ some p)
live-some none h = absurd (omega (arith, h))
live-some (some p) h = (p, refl)

-- Whatever turns the CPUs and the loader have taken since `main` started them, in any order: if
-- `malloc` gives unused blocks and the configuration's priorities are in range, a CPU's turn is a
-- fault only if an instruction of a process in memory is. The test of its process's state, the
-- calls of the scheduler, and the reads of the process at hand are not.
pub turns_fault :
    (st : Setting) (junk : List ℕ) (mp : Memphy) (config : Config) (ts : List Turn) (sys : System)
    (i : ℕ)
    → IsFresh st.malloc_pcb
    → All IsPrio config.processes
    → turns st config.processes (main junk mp config).system ts ≡ some sys
    → turn st config.processes sys (cpu_turn i) ≡ none
    → (t : Thread) × (get_elem? sys.cpus i ≡ some t)
      × Runs t.place
      × FaultsIn st sys.world t.cpu.proc
unfolding turn
turns_fault st junk mp config ts sys i fresh prios e fault =
    elim (Option-cases (get_elem? sys.cpus i)) [
      | inl no_cpu ↦
          let same : turn st config.processes sys (cpu_turn i) ≡ some sys =
            rw (turn, no_cpu) refl in
          cc (same, fault)
      | inr (t, at) ↦
          let safe = turns-IsSafe st junk mp config fresh prios ts sys e in
          let (runs, faults) =
            cpu_step-FaultsIn st sys.world t.place t.cpu safe.sound (there t at) (stuck t at) in
          (t, at, runs, faults)
    ]
  where
    there :
        (t : Thread)
        → get_elem? sys.cpus i ≡ some t
        → t.place ≢ at_reload
        → IsThere sys.world t.cpu.proc
    there t at here = elim (Bool-cases (t.cpu.proc == null)) [
      | inl absent ↦ inl ((==_iff t.cpu.proc null).0 absent)
      | inr present ↦
          let is_proc : t.cpu.proc ≢ null = λ z. ground (arith, present) in
          let (alive, _, _) =
            Has-alone st junk mp config fresh prios ts sys e i (i + 1) t.cpu.proc is_proc
              (λ same. omega arith)
              (record { thread = t; there = at; at_hand = refl; not_let_go = here }) in
          inr (live-some (sys.world.procs t.cpu.proc) alive)
    ]

    stuck :
        (t : Thread) → get_elem? sys.cpus i ≡ some t → cpu_step st sys.world t.place t.cpu ≡ none
    stuck t at = elim (Option-cases (cpu_step st sys.world t.place t.cpu)) [
      | inl e' ↦ e'
      | inr ((w, t'), e') ↦
          let result : turn st config.processes sys (cpu_turn i)
              ≡ some (record sys { world = w; cpus = set sys.cpus i t' }) =
            rw (turn, at, e') refl in
          cc (result, fault)
    ]
