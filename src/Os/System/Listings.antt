-- ===== src/Os/System/Listings.antt =====
-- src/os.c: what a turn of a CPU or of the loader changes of the running list.
use os_lamina_atrium.Base.{
  ℕ, ◌+◌, ◌-◌, ◌^◌, ◌<◌, ◌≡◌, ◌≢◌, refl, sym, subst, inl, inr, true, false, Bool, Option, none,
  some, ◌==◌, if◌then◌else◌, arith, length, one_if, count, Bool-cases, Option-cases,
}
use os_lamina_atrium.Words.{u32}
use os_lamina_atrium.Queue.{null}
use os_lamina_atrium.Mm.{update}
use os_lamina_atrium.Sched.{put_proc}
use os_lamina_atrium.Cpu.{run}
use os_lamina_atrium.Os.{
  World, Setting, Cpu, slot_over, stopped, Round, run_proc, slot_end, env, serve, serve_first,
}
use os_lamina_atrium.Os.System.{Thread, release_proc, back}
use os_lamina_atrium.Os.System.Account.{holds, Sound}
use os_lamina_atrium.Os.System.Listed.{running, Listing, put_proc-Listing}

-- The same for a CPU's turn, if it meets no fault
abbrev pub CpuListing : World → (ℕ → ℕ) → Option (World × Thread) → Type 0
CpuListing w f none = Unit
CpuListing w f (some (w', t')) = Listing w f w' (λ a. holds a t') 0

abbrev pub With : World → ℕ → Option (World × Thread) → Type 0
With w p = CpuListing w (λ a. one_if a p)

pub same_lists : (w : World) (f : ℕ → ℕ) → Listing w f w f 0
same_lists w f = record {
  room = omega arith;
  listed = λ a h. omega arith;
  linked = λ e. e;
  links = λ h. absurd (omega (arith, h));
}

run_proc-With :
    (st : Setting) (w : World) (cpu : Cpu) → With w cpu.proc (back (slot_end (run_proc st w cpu)))
unfolding run_proc
run_proc-With st w cpu = elim (Option-cases (w.procs cpu.proc)) [
  | inl none_there ↦
      let fault : run_proc st w cpu ≡ none = rw (run_proc, none_there) refl in rw fault tt
  | inr (p, there) ↦ elim (Option-cases (run (env st w) p w.machine)) [
    | inl none_left ↦
        let fault : run_proc st w cpu ≡ none = rw (run_proc, there, none_left) refl in rw fault tt
    | inr ((stat, p', m), ran) ↦
        let result : run_proc st w cpu
            ≡ some (
              record w { procs = update w.procs cpu.proc (some p'); machine = m },
              record cpu { time_left = u32 (cpu.time_left + 2 ^ 32 - 1) },
            ) =
          rw (run_proc, there, ran) refl in
        subst (λ (r : Option (World × Cpu)). With w cpu.proc (back (slot_end r))) (sym result)
          (record {
            room = omega arith;
            listed = λ a h. omega arith;
            linked = λ e. e;
            links = λ h. absurd (omega (arith, h));
          })
  ]
]

idle-With :
    (w : World) (cpu : Cpu) (b : Bool)
    → With w cpu.proc (back (some (w, cpu, if b then stopped else slot_over)))
idle-With w cpu true = same_lists w (λ a. one_if a cpu.proc)
idle-With w cpu false = same_lists w (λ a. one_if a cpu.proc)

pub serve-With : (st : Setting) (w : World) (cpu : Cpu) → With w cpu.proc (back (serve st w cpu))
unfolding serve
serve-With st w cpu = elim (Bool-cases (cpu.proc == null)) [
  | inl absent ↦
      let idle : serve st w cpu ≡ some (w, cpu, if w.done then stopped else slot_over) =
        rw (serve, absent) refl in
      subst (λ (r : Round). With w cpu.proc (back r)) (sym idle) (idle-With w cpu w.done)
  | inr present ↦ elim (Bool-cases (cpu.time_left == 0)) [
    | inl over ↦
        let full : Cpu = record cpu { time_left = st.time_slot } in
        let served : serve st w cpu ≡ slot_end (run_proc st w full) =
          rw (serve, present, over) refl in
        subst (λ (r : Round). With w cpu.proc (back r)) (sym served) (run_proc-With st w full)
    | inr more ↦
        let served : serve st w cpu ≡ slot_end (run_proc st w cpu) =
          rw (serve, present, more) refl in
        subst (λ (r : Round). With w cpu.proc (back r)) (sym served) (run_proc-With st w cpu)
  ]
]

pub serve_first-With :
    (st : Setting) (w : World) (cpu : Cpu) → With w cpu.proc (back (serve_first st (w, cpu)))
unfolding serve_first
serve_first-With st w cpu = elim (Bool-cases (cpu.proc == null)) [
  | inl absent ↦
      let idle : serve_first st (w, cpu) ≡ some (w, cpu, slot_over) =
        rw (serve_first, absent) refl in
      subst (λ (r : Round). With w cpu.proc (back r)) (sym idle) (idle-With w cpu false)
  | inr present ↦
      let served : serve_first st (w, cpu) ≡ serve st w cpu = rw (serve_first, present) refl in
      subst (λ (r : Round). With w cpu.proc (back r)) (sym served) (serve-With st w cpu)
]

pub release_proc-With :
    (w : World) (cpu : Cpu)
    → Sound w
    → cpu.proc ≢ null
    → 0 < count cpu.proc (running w)
    → With w cpu.proc (release_proc w cpu)
unfolding release_proc
release_proc-With w cpu s h found = elim (Option-cases (w.procs cpu.proc)) [
  | inl none_there ↦
      let fault : release_proc w cpu ≡ none = rw (release_proc, none_there) refl in rw fault tt
  | inr (p, there) ↦ elim (Bool-cases (p.pc == length p.code)) [
    | inl finished ↦
        rw (release_proc, there, finished)
          (record {
            room = omega arith;
            listed = λ a h. omega arith;
            linked = λ e. e;
            links = λ h. absurd (omega (arith, h));
          })
    | inr unfinished ↦ elim (Bool-cases (cpu.time_left == 0)) [
      | inr more ↦
          rw (release_proc, there, unfinished, more) (same_lists w (λ a. one_if a cpu.proc))
      | inl over ↦ elim (Option-cases (put_proc w.sched cpu.proc p.prio)) [
        | inl no_level ↦
            let fault : release_proc w cpu ≡ none =
              rw (release_proc, there, unfinished, over, no_level) refl in
            rw fault tt
        | inr (sched, put) ↦
            rw (release_proc, there, unfinished, over, put)
              (put_proc-Listing w cpu.proc p.prio sched s h found put)
      ]
    ]
  ]
]
