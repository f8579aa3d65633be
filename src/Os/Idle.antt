-- ===== src/Os/Idle.antt =====
-- A CPU that has no process, when no process is ready.
use os_lamina_atrium.Base.{
  ℕ, zero, suc, ◌+◌, ◌≡◌, refl, sym, ap, ◌∙◌, true, List, [], ◌∷◌, none, some, ◌==◌, arith, All,
}
use os_lamina_atrium.Queue.{null, empty}
use os_lamina_atrium.Sched.{Level, scan, get_mlq_proc, get_proc}
use os_lamina_atrium.Os.{
  World, Setting, Cpu, next_proc, slot_over, stopped, Round, serve_first, cpu_round,
}

-- Rounds of a CPU one after the other, until it stops.
unfoldable pub cpu_rounds : ℕ → Setting → World → Cpu → Round
unfolding cpu_round
cpu_rounds zero st w cpu = some (w, cpu, slot_over)
cpu_rounds (suc n) st w cpu = elim (cpu_round st w cpu) [
  | none ↦ none
  | some (w', cpu', stopped) ↦ some (w', cpu', stopped)
  | some (w', cpu', slot_over) ↦ cpu_rounds n st w' cpu'
]

-- No process is ready.
abbrev pub NoneReady : List Level → Type 0
NoneReady = All (λ l. empty l.queue ≡ true)

scan_idle : (prio : ℕ) (ls : List Level) → NoneReady ls → scan prio ls ≡ (null, ls)
unfolding scan
scan_idle prio [] h = refl
scan_idle prio (l ∷ ls) (e, h) = rw (e, scan_idle (prio + 1) ls h) refl

next_idle :
    (w : World) (cpu : Cpu)
    → cpu.proc ≡ null
    → NoneReady w.sched.levels
    → next_proc w cpu ≡ (w, cpu)
unfolding next_proc get_proc get_mlq_proc
next_idle w cpu e h =
    rw (scan_idle 0 w.sched.levels h) (ap (λ (p : ℕ). (w, record cpu { proc = p })) (sym e))

round_idle :
    (st : Setting) (w : World) (cpu : Cpu)
    → cpu.proc ≡ null
    → NoneReady w.sched.levels
    → cpu_round st w cpu ≡ some (w, cpu, slot_over)
unfolding cpu_round serve_first
round_idle st w cpu e h =
    let none_at_hand : (cpu.proc == null) ≡ true = ground arith in
    rw none_at_hand (ap (serve_first st) (next_idle w cpu e h) ∙ rw none_at_hand refl)

-- A CPU that has no process, while none is ready, never stops, whether or not the loader has
-- finished: any number of rounds leaves it and everything else as it was.
pub cpu_idle_forever :
    (st : Setting) (n : ℕ) (w : World) (cpu : Cpu)
    → cpu.proc ≡ null
    → NoneReady w.sched.levels
    → cpu_rounds n st w cpu ≡ some (w, cpu, slot_over)
unfolding cpu_rounds
cpu_idle_forever st zero w cpu e h = refl
cpu_idle_forever st (suc n) w cpu e h =
    rw (cpu_rounds, round_idle st w cpu e h) (cpu_idle_forever st n w cpu e h)
