-- ===== src/Os/System/Safety.antt =====
-- Where the processes are, after any number of turns of the CPUs and the loader of src/os.c.
use os_lamina_atrium.Base.{
  ℕ, zero, suc, ◌+◌, ◌≤◌, ◌≡◌, refl, sym, ◌∙◌, subst, inl, inr, false, List, [], ◌∷◌, none, some,
  arith, length, replicate, All, Option-cases,
}
use os_lamina_atrium.Queue.{max_queue_size}
use os_lamina_atrium.Queue.Refine.{IsProc}
use os_lamina_atrium.Mm.{Machine}
use os_lamina_atrium.Sched.{Level, Sched, zeroed, init_levels, init_scheduler}
use os_lamina_atrium.Sched.Inv.{zeroed-IsValid, init_scheduler-IsValid}
use os_lamina_atrium.Sched.Conserve.{ready_count}
use os_lamina_atrium.Sched.Ready.{ready_length}
use os_lamina_atrium.Os.{Setting, Entry, ld_round}
use os_lamina_atrium.Os.System.{System, Turn, cpu_turn, loader_turn, turn, turns}
use os_lamina_atrium.Os.System.Loading.{IsFresh, IsPrio, ld_round-LoaderTurned}
use os_lamina_atrium.Os.System.Preserve.{
  held, in_hands, IsSafe, NoneLost, Next, NextIf, cpu_turn-Next, loader_Next,
}
use os_lamina_atrium.Memphy.{Memphy}
use os_lamina_atrium.Os.Boot.{Config, main, rounds, idle}

-- A number of CPUs before their loops, and the loader before its own; no process is in memory.
abbrev pub booted : ℕ → Machine → System
booted n m = record {
  world = record {
    sched = init_scheduler zeroed;
    procs = λ a. none;
    machine = m;
    avail_pid = 1;
    done = false;
  };
  cpus = replicate n idle;
  loaded = 0;
}

module _ (st : Setting) (entries : List Entry) (fresh : IsFresh st.malloc_pcb)
    (prios : All IsPrio entries) where
  pub turn-Next :
      (sys : System) (t : Turn) → IsSafe entries sys → NextIf entries sys (turn st entries sys t)
  unfolding turn
  turn-Next sys (cpu_turn n) s = cpu_turn-Next st entries sys n s
  turn-Next sys (loader_turn now) s =
      loader_Next entries sys (ld_round st entries now sys.world sys.loaded) s
        (ld_round-LoaderTurned st entries now sys.world sys.loaded s.sound fresh prios)

  turns-Next :
      (ts : List Turn) (sys sys' : System)
      → IsSafe entries sys
      → turns st entries sys ts ≡ some sys'
      → Next entries sys sys'
  unfolding turns
  turns-Next [] sys sys' s e =
      subst (NextIf entries sys) e (record { safe = s; kept = λ small none_lost. none_lost })
  turns-Next (t ∷ ts) sys sys' s e = elim (Option-cases (turn st entries sys t)) [
    | inl fault ↦
        let no_end : turns st entries sys (t ∷ ts) ≡ none = rw (turns, fault) refl in cc (no_end, e)
    | inr (mid, e') ↦
        let more : turns st entries sys (t ∷ ts) ≡ turns st entries mid ts = rw (turns, e') refl in
        let first = subst (NextIf entries sys) e' (turn-Next sys t s) in
        let later = turns-Next ts mid sys' first.safe (sym more ∙ e) in
        record {
          safe = later.safe;
          kept = λ small none_lost. later.kept small (first.kept small none_lost);
        }
  ]

ready_count-booted : (a prio : ℕ) (ls : List Level) → ready_count a (init_levels prio ls) ≡ 0
unfolding init_levels
ready_count-booted a prio [] = refl
ready_count-booted a prio (l ∷ ls) = omega (arith, ready_count-booted a (prio + 1) ls)

pub ready_length-booted : (prio : ℕ) (ls : List Level) → ready_length (init_levels prio ls) ≡ 0
unfolding init_levels
ready_length-booted prio [] = refl
ready_length-booted prio (l ∷ ls) = omega (arith, ready_length-booted (prio + 1) ls)

pub held-booted : (a n : ℕ) → IsProc a → held a (replicate n idle) ≡ 0
held-booted a zero h = refl
held-booted a (suc n) h = ground (arith, held-booted a n h)

in_hands-booted : (n : ℕ) → in_hands (replicate n idle) ≡ 0
in_hands-booted zero = refl
in_hands-booted (suc n) = omega (arith, in_hands-booted n)

pub booted-IsSafe : (entries : List Entry) (n : ℕ) (m : Machine) → IsSafe entries (booted n m)
unfolding init_scheduler
booted-IsSafe entries n m = record {
  sound = record {
    sched_valid = init_scheduler-IsValid zeroed zeroed-IsValid;
    prio_valid = λ a p e. cc (e);
  };
  once = λ a h. omega (arith, ready_count-booted a 0 (Sched.levels zeroed), held-booted a n h);
  few = omega (arith, ready_length-booted 0 (Sched.levels zeroed), in_hands-booted n);
  within = omega arith;
}

booted-NoneLost : (n : ℕ) (m : Machine) → NoneLost (booted n m)
booted-NoneLost n m a h = omega arith

-- `main` starts the threads in such a state.
unfoldable pub booted_config : List ℕ → Memphy → Config → System
booted_config junk mp config =
    booted (rounds config.num_cpus) (main junk mp config).system.world.machine

pub main-booted :
    (junk : List ℕ) (mp : Memphy) (config : Config)
    → (main junk mp config).system ≡ booted_config junk mp config
unfolding main booted_config
main-booted junk mp config = refl

module _ (st : Setting) (junk : List ℕ) (mp : Memphy) (config : Config)
    (fresh : IsFresh st.malloc_pcb) (prios : All IsPrio config.processes) (ts : List Turn)
    (sys : System) (e : turns st config.processes (main junk mp config).system ts ≡ some sys) where
  turned : Next config.processes (booted_config junk mp config) sys
  unfolding booted_config
  turned =
      turns-Next st config.processes fresh prios ts (booted_config junk mp config) sys
        (booted-IsSafe config.processes (rounds config.num_cpus)
          (main junk mp config).system.world.machine)
        (subst (λ (s : System). turns st config.processes s ts ≡ some sys)
          (main-booted junk mp config) e)

  -- The invariant holds whatever turns the threads have taken.
  pub turns-IsSafe : IsSafe config.processes sys
  turns-IsSafe = let next = turned in next.safe

  pub turns-NoneLost : length config.processes ≤ max_queue_size → NoneLost sys
  unfolding booted_config
  turns-NoneLost small =
      let next = turned in
      next.kept small
        (booted-NoneLost (rounds config.num_cpus) (main junk mp config).system.world.machine)
