-- ===== src/Os/System/Turns.antt =====
-- What one turn of a CPU changes of where the processes are.
use os_lamina_atrium.Base.{
  ℕ, ◌≡◌, ◌≢◌, refl, sym, subst, inl, inr, none, some, ◌==◌, ==_iff, arith, length, one_if,
  Bool-cases, Option-cases,
}
use os_lamina_atrium.Queue.{null}
use os_lamina_atrium.Mm.{update}
use os_lamina_atrium.Sched.Ready.{one_unless_null}
use os_lamina_atrium.Cpu.{Process}
use os_lamina_atrium.Os.{World, Setting, Cpu}
use os_lamina_atrium.Os.System.{
  Place, at_top, at_first, at_reload, at_recheck, at_exit, Thread, release_proc, reload, cpu_step,
}
use os_lamina_atrium.Os.System.Account.{
  holds, in_hand, Sound, Effect, next_proc-Effect, free-Effect, put_proc-Effect,
}
use os_lamina_atrium.Os.System.Serve.{
  Turned, TurnedWith, unchanged, serve-Turned, serve_first-Turned,
}

-- Without a process, a CPU has nothing of any process.
from_null :
    (p : ℕ) (w : World) (w' : World) (f : ℕ → ℕ) (n : ℕ)
    → p ≡ null
    → Effect w (λ a. 0) 0 w' f n
    → Effect w (λ a. one_if a p) (one_unless_null p) w' f n
from_null p w w' f n e r = record {
  sound = r.sound;
  none_gained = λ a h. ground (arith, r.none_gained a h, e);
  none_lost = λ small a h. ground (arith, r.none_lost (ground arith) a h, e);
  fewer = ground (arith, r.fewer, e);
}

-- The CPU has a process.
from_proc :
    (p : ℕ) (w : World) (w' : World) (f : ℕ → ℕ) (n : ℕ)
    → p ≢ null
    → Effect w (λ a. one_if a p) 1 w' f n
    → Effect w (λ a. one_if a p) (one_unless_null p) w' f n
from_proc p w w' f n h r =
    let e : one_unless_null p ≡ 1 = ground (arith, h) in
    subst (λ (k : ℕ). Effect w (λ a. one_if a p) k w' f n) (sym e) r

-- A CPU whose process is in memory lets it go, or keeps it, without a fault.
pub release_proc-Turned :
    (w : World) (cpu : Cpu) (p : Process)
    → Sound w
    → cpu.proc ≢ null
    → w.procs cpu.proc ≡ some p
    → (w' : World) × (t' : Thread) × (release_proc w cpu ≡ some (w', t'))
      × TurnedWith w cpu.proc (some (w', t'))
unfolding release_proc
release_proc-Turned w cpu p s h there = elim (Bool-cases (p.pc == length p.code)) [
  | inl finished ↦ (
    record w { procs = update w.procs cpu.proc none },
    record { cpu = record cpu { time_left = 0 }; place = at_reload },
    rw (release_proc, there, finished) refl,
    from_proc cpu.proc w _ _ _ h (free-Effect w cpu.proc p s h there),
  )
  | inr unfinished ↦ elim (Bool-cases (cpu.time_left == 0)) [
    | inl over ↦
        let (sched, e, effect) =
          put_proc-Effect w cpu.proc p.prio s h (s.prio_valid cpu.proc p there) in
        (
          record w { sched = sched },
          record { cpu = cpu; place = at_reload },
          rw (release_proc, there, unfinished, over, e) refl,
          from_proc cpu.proc w _ _ _ h effect,
        )
    | inr more ↦ (
      w,
      record { cpu = cpu; place = at_recheck },
      rw (release_proc, there, unfinished, more) refl,
      unchanged w (λ a. one_if a cpu.proc) (one_unless_null cpu.proc) s,
    )
  ]
]

top-Turned :
    (st : Setting) (w : World) (cpu : Cpu)
    → Sound w
    → TurnedWith w cpu.proc (cpu_step st w at_top cpu)
unfolding cpu_step reload
top-Turned st w cpu s = elim (Bool-cases (cpu.proc == null)) [
  | inl absent ↦
      let loaded : cpu_step st w at_top cpu ≡ some (reload w cpu at_first) =
        rw (cpu_step, absent) refl in
      subst (TurnedWith w cpu.proc) (sym loaded)
        (from_null cpu.proc w _ _ _ ((==_iff cpu.proc null).0 absent) (next_proc-Effect w cpu s))
  | inr present ↦
      let released : cpu_step st w at_top cpu ≡ release_proc w cpu = rw (cpu_step, present) refl in
      subst (TurnedWith w cpu.proc) (sym released) (elim (Option-cases (w.procs cpu.proc)) [
        | inl none_there ↦
            let fault : release_proc w cpu ≡ none = rw (release_proc, none_there) refl in
            subst (TurnedWith w cpu.proc) (sym fault) tt
        | inr (p, there) ↦
            let (w', t', e, effect) =
              release_proc-Turned w cpu p s (λ z. ground (arith, present)) there in
            subst (TurnedWith w cpu.proc) (sym e) effect
      ])
]

pub cpu_step-Turned :
    (st : Setting) (w : World) (place : Place) (cpu : Cpu)
    → Sound w
    → let t : Thread = record { cpu = cpu; place = place } in
      Turned w (λ a. holds a t) (in_hand t) (cpu_step st w place cpu)
unfolding cpu_step reload
cpu_step-Turned st w at_top cpu s = top-Turned st w cpu s
cpu_step-Turned st w at_first cpu s = serve_first-Turned st w cpu s
cpu_step-Turned st w at_reload cpu s = next_proc-Effect w cpu s
cpu_step-Turned st w at_recheck cpu s = serve-Turned st w cpu s
cpu_step-Turned st w at_exit cpu s =
    unchanged w (λ a. one_if a cpu.proc) (one_unless_null cpu.proc) s
