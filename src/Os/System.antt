-- ===== src/Os/System.antt =====
-- src/os.c: several CPUs and the loader at once. What the threads share under `queue_lock` changes
-- in one call of src/sched.c at a time, so a round of `cpu_routine` is cut where it calls the
-- scheduler, and the other threads take their turns in between. A round of the loader calls the
-- scheduler once, so it is one turn.
pub mod Account
pub mod Serve
pub mod Turns
pub mod Loading
pub mod Preserve
pub mod Safety
pub mod Places
pub mod Faults
pub mod Listed
pub mod Listings
pub mod ListingTurns
pub mod AreListed
pub mod Found
use os_lamina_atrium.Base.{
  ℕ, List, [], ◌∷◌, Option, none, some, ◌==◌, if◌then◌else◌, get_elem?, set, length,
}
use os_lamina_atrium.Queue.{null}
use os_lamina_atrium.Mm.{update}
use os_lamina_atrium.Sched.{put_proc}
use os_lamina_atrium.Os.{
  World, Setting, Cpu, next_proc, slot_over, stopped, Round, serve, serve_first, Entry, ld_round,
}

-- Where in its loop a CPU is: at the top; after the first load; after `free` or `put_proc`, before
-- `get_proc`; before it looks at its process again; after the loop.
pub data Place : Type 0 where
  at_top at_first at_reload at_recheck at_exit : Place

pub record Thread : Type 0 where
  pub cpu : Cpu
  pub place : Place

-- The first `if` for a process at hand, up to the call of `get_proc`.
unfoldable pub release_proc : World → Cpu → Option (World × Thread)
unfolding put_proc
release_proc w cpu = elim (w.procs cpu.proc) [
  | none ↦ none
  | some p ↦
      if p.pc == length p.code
      then some (
        record w { procs = update w.procs cpu.proc none },
        record { cpu = record cpu { time_left = 0 }; place = at_reload },
      )
      else if cpu.time_left == 0
      then elim (put_proc w.sched cpu.proc p.prio) [
        | none ↦ none
        | some sched ↦ some (record w { sched = sched }, record { cpu = cpu; place = at_reload })
      ]
      else some (w, record { cpu = cpu; place = at_recheck })
]

-- `proc = get_proc()`, and the place after it
unfoldable pub reload : World → Cpu → Place → World × Thread
unfolding next_proc
reload w cpu place = let (w', cpu') = next_proc w cpu in (w', record { cpu = cpu'; place = place })

abbrev pub back : Round → Option (World × Thread)
back none = none
back (some (w, cpu, slot_over)) = some (w, record { cpu = cpu; place = at_top })
back (some (w, cpu, stopped)) = some (w, record { cpu = cpu; place = at_exit })

-- A CPU's turn: up to and with its next access to what the threads share.
unfoldable pub cpu_step : Setting → World → Place → Cpu → Option (World × Thread)
unfolding release_proc reload serve serve_first
cpu_step st w at_top cpu =
    if cpu.proc == null then some (reload w cpu at_first) else release_proc w cpu
cpu_step st w at_first cpu = back (serve_first st (w, cpu))
cpu_step st w at_reload cpu = some (reload w cpu at_recheck)
cpu_step st w at_recheck cpu = back (serve st w cpu)
cpu_step st w at_exit cpu = some (w, record { cpu = cpu; place = at_exit })

-- All threads; `loaded` is the loader's `i`.
pub record System : Type 0 where
  pub world : World
  pub cpus : List Thread
  pub loaded : ℕ

-- Whose turn it is: a CPU's, or the loader's at a time.
pub data Turn : Type 0 where
  cpu_turn : ℕ → Turn
  loader_turn : ℕ → Turn

unfoldable pub turn : Setting → List Entry → System → Turn → Option System
unfolding cpu_step ld_round
turn st entries sys (cpu_turn n) = elim (get_elem? sys.cpus n) [
  | none ↦ some sys
  | some t ↦ elim (cpu_step st sys.world t.place t.cpu) [
    | none ↦ none
    | some (w, t') ↦ some (record sys { world = w; cpus = set sys.cpus n t' })
  ]
]
turn st entries sys (loader_turn now) = elim (ld_round st entries now sys.world sys.loaded) [
  | none ↦ none
  | some (w, i, _) ↦ some (record sys { world = w; loaded = i })
]

-- Turns one after the other, in any order.
unfoldable pub turns : Setting → List Entry → System → List Turn → Option System
unfolding turn
turns st entries sys [] = some sys
turns st entries sys (t ∷ ts) = elim (turn st entries sys t) [
  | none ↦ none
  | some sys' ↦ turns st entries sys' ts
]
