-- ===== src/Os/System/Account.antt =====
-- Where the processes are while the threads of src/os.c take turns: in a ready queue, or at hand of a
-- CPU; and what one call of the scheduler changes of that.
use os_lamina_atrium.Base.{
  ℕ, ◌+◌, ◌≤◌, ◌<◌, ◌≡◌, ◌≢◌, inl, inr, Option, none, some, ◌==◌, arith, one_if, Bool-cases,
  Option-cases,
}
use os_lamina_atrium.Queue.{null, max_queue_size}
use os_lamina_atrium.Queue.Refine.{IsProc}
use os_lamina_atrium.Mm.{update}
use os_lamina_atrium.Sched.{
  Sched, max_prio, get_proc, get_mlq_proc, put_proc, put_mlq_proc, enqueue_at,
}
use os_lamina_atrium.Sched.Inv.{IsValid, get_mlq_proc-IsValid, put_mlq_proc-IsValid}
use os_lamina_atrium.Sched.Conserve.{ready_count, scan_count, enqueue_at_count}
use os_lamina_atrium.Sched.Ready.{
  ready_length, one_unless_null, ready_length-scan, ready_length-enqueue_at, level_full_lem,
}
use os_lamina_atrium.Cpu.{Process}
use os_lamina_atrium.Os.{World, Cpu, next_proc}
use os_lamina_atrium.Os.System.{Thread, at_reload}

-- 1 if the process is in memory
abbrev pub live : Option Process → ℕ
live none = 0
live (some p) = 1

-- 1 if the process is at hand of the CPU; a CPU that has let its process go has none.
abbrev pub holds : ℕ → Thread → ℕ
holds a t = elim t.place [ at_reload ↦ 0 | _ ↦ one_if a t.cpu.proc ]

-- 1 if the CPU has any process at hand
abbrev pub in_hand : Thread → ℕ
in_hand t = elim t.place [ at_reload ↦ 0 | _ ↦ one_unless_null t.cpu.proc ]

pub record Sound (w : World) : Type 0 where
  pub sched_valid : IsValid w.sched
  pub prio_valid : (a : ℕ) (p : Process) → w.procs a ≡ some p → p.prio < max_prio

-- A thread had `before a` of each process and `n` in all, and has `after a` and `n'`. No process is
-- gained; none is lost if there were few enough.
pub record Effect (w : World) (before : ℕ → ℕ) (n : ℕ) (w' : World) (after : ℕ → ℕ) (n' : ℕ)
    : Type 0 where
  pub sound : Sound w'
  pub none_gained :
      (a : ℕ)
      → IsProc a
      → ready_count a w'.sched.levels + after a + live (w.procs a)
        ≤ ready_count a w.sched.levels + before a + live (w'.procs a)
  pub none_lost :
      ready_length w.sched.levels + n ≤ max_queue_size
      → (a : ℕ) → IsProc a
      → ready_count a w.sched.levels + before a + live (w'.procs a)
        ≤ ready_count a w'.sched.levels + after a + live (w.procs a)
  pub fewer : ready_length w'.sched.levels + n' ≤ ready_length w.sched.levels + n

-- `get_proc` by a CPU that has no process
pub next_proc-Effect :
    (w : World) (cpu : Cpu)
    → Sound w
    → let (w', cpu') = next_proc w cpu in
      Effect w (λ a. 0) 0 w' (λ a. one_if a cpu'.proc) (one_unless_null cpu'.proc)
unfolding next_proc get_proc get_mlq_proc
next_proc-Effect w cpu s = record {
  sound = record {
    sched_valid = get_mlq_proc-IsValid w.sched s.sched_valid;
    prio_valid = s.prio_valid;
  };
  none_gained = λ a h. omega (arith, scan_count a 0 w.sched.levels h s.sched_valid.levels_valid);
  none_lost =
      λ small a h. omega (arith, scan_count a 0 w.sched.levels h s.sched_valid.levels_valid);
  fewer = omega (arith, ready_length-scan 0 w.sched.levels s.sched_valid.levels_valid);
}

-- `free(proc)` by the CPU that has the process
pub free-Effect :
    (w : World) (p : ℕ) (proc : Process)
    → Sound w
    → p ≢ null
    → w.procs p ≡ some proc
    → Effect w (λ a. one_if a p) 1 (record w { procs = update w.procs p none }) (λ a. 0) 0
free-Effect w p proc s h e = record {
  sound = record {
    sched_valid = s.sched_valid;
    prio_valid = λ a q e'. elim (Bool-cases (a == p)) [
      | inl same ↦ ground (arith, same, e')
      | inr other ↦ s.prio_valid a q (ground (arith, other, e'))
    ];
  };
  none_gained = λ a h'. ground (arith, e);
  none_lost = λ small a h'. ground (arith, e);
  fewer = omega arith;
}

-- `put_proc(proc)` by the CPU that has the process
pub put_proc-Effect :
    (w : World) (p prio : ℕ)
    → Sound w
    → p ≢ null
    → prio < max_prio
    → (sched : Sched) × (put_proc w.sched p prio ≡ some sched)
      × Effect w (λ a. one_if a p) 1 (record w { sched = sched }) (λ a. 0) 0
unfolding put_proc put_mlq_proc
put_proc-Effect w p prio s h h' =
    let (sched, e, v) = put_mlq_proc-IsValid w.sched p prio h' h s.sched_valid in
    elim (Option-cases (enqueue_at prio p w.sched.levels)) [
      | inl none_left ↦ absurd (ground (arith, none_left, e))
      | inr (rest, found) ↦
          let same : rest ≡ sched.levels = ground (arith, found, e) in
          let found' : enqueue_at prio p w.sched.levels ≡ some sched.levels = rw same at found in
          let counts = λ (a : ℕ) (h : IsProc a).
            enqueue_at_count 0 a p prio w.sched.levels sched.levels h s.sched_valid.levels_valid
              found' in
          (
            sched,
            e,
            record {
              sound = record { sched_valid = v; prio_valid = s.prio_valid };
              none_gained = λ a h. ground (arith, counts a h);
              none_lost =
                  λ small a h. ground (arith, counts a h, level_full_lem prio w.sched.levels);
              fewer = omega (
                arith,
                ready_length-enqueue_at 0 p prio w.sched.levels sched.levels
                    s.sched_valid.levels_valid found',
              );
            },
          )
    ]
