-- ===== src/Os/System/Preserve.antt =====
-- What each turn of the threads of src/os.c keeps.
use os_lamina_atrium.Base.{
  ℕ, zero, suc, ◌+◌, ◌≤◌, ◌≡◌, refl, sym, subst, inl, inr, List, [], ◌∷◌, Option, none, some, arith,
  length, get_elem?, set, Option-cases,
}
use os_lamina_atrium.Queue.{max_queue_size}
use os_lamina_atrium.Queue.Refine.{IsProc}
use os_lamina_atrium.Sched.Conserve.{ready_count}
use os_lamina_atrium.Sched.Ready.{ready_length}
use os_lamina_atrium.Os.{World, Setting, End, Entry}
use os_lamina_atrium.Os.System.{Thread, cpu_step, System, cpu_turn, turn}
use os_lamina_atrium.Os.System.Account.{live, holds, in_hand, Sound, Effect}
use os_lamina_atrium.Os.System.Serve.{Turned}
use os_lamina_atrium.Os.System.Turns.{cpu_step-Turned}
use os_lamina_atrium.Os.System.Loading.{LoaderTurned}
use os_lamina_atrium.Os.Boot.{idle}

-- How many CPUs have the process at hand, and how many have any.
abbrev pub held : ℕ → List Thread → ℕ
held a [] = 0
held a (t ∷ ts) = holds a t + held a ts

abbrev pub in_hands : List Thread → ℕ
in_hands [] = 0
in_hands (t ∷ ts) = in_hand t + in_hands ts

pub held-set :
    (a : ℕ) (ts : List Thread) (n : ℕ) (t t' : Thread)
    → get_elem? ts n ≡ some t
    → held a (set ts n t') + holds a t ≡ held a ts + holds a t'
held-set a [] n t t' e = cc (e)
held-set a (s ∷ ts) zero t t' e = let same : s ≡ t = cc (e) in rw same (omega arith)
held-set a (s ∷ ts) (suc n) t t' e = omega (arith, held-set a ts n t t' e)

in_hands-set :
    (ts : List Thread) (n : ℕ) (t t' : Thread)
    → get_elem? ts n ≡ some t
    → in_hands (set ts n t') + in_hand t ≡ in_hands ts + in_hand t'
in_hands-set [] n t t' e = cc (e)
in_hands-set (s ∷ ts) zero t t' e = let same : s ≡ t = cc (e) in rw same (omega arith)
in_hands-set (s ∷ ts) (suc n) t t' e = omega (arith, in_hands-set ts n t t' e)

-- The scheduler is valid, every process is in at most one place, and there are no more than the
-- loader has loaded.
pub record IsSafe (entries : List Entry) (sys : System) : Type 0 where
  pub sound : Sound sys.world
  pub once :
      (a : ℕ)
      → IsProc a
      → ready_count a sys.world.sched.levels + held a sys.cpus ≤ live (sys.world.procs a)
  pub few : ready_length sys.world.sched.levels + in_hands sys.cpus ≤ sys.loaded
  pub within : sys.loaded ≤ length entries

-- Every process in memory is in some place.
abbrev pub NoneLost : System → Type 0
NoneLost sys =
    (a : ℕ)
    → IsProc a
    → live (sys.world.procs a) ≤ ready_count a sys.world.sched.levels + held a sys.cpus

-- The invariant after a turn, and that nothing is lost if the processes are few.
pub record Next (entries : List Entry) (sys sys' : System) : Type 0 where
  pub safe : IsSafe entries sys'
  pub kept : length entries ≤ max_queue_size → NoneLost sys → NoneLost sys'

abbrev pub NextIf : List Entry → System → Option System → Type 0
NextIf entries sys none = Unit
NextIf entries sys (some sys') = Next entries sys sys'

cpu_Next :
    (entries : List Entry) (sys : System) (n : ℕ) (t : Thread) (w : World) (t' : Thread)
    → IsSafe entries sys
    → get_elem? sys.cpus n ≡ some t
    → Effect sys.world (λ a. holds a t) (in_hand t) w (λ a. holds a t') (in_hand t')
    → Next entries sys (record sys { world = w; cpus = set sys.cpus n t' })
cpu_Next entries sys n t w t' s at r = record {
  safe = record {
    sound = r.sound;
    once = λ a h. omega (arith, s.once a h, r.none_gained a h, held-set a sys.cpus n t t' at);
    few = omega (arith, s.few, r.fewer, in_hands-set sys.cpus n t t' at);
    within = s.within;
  };
  kept = λ small none_lost a h.
      let room : ready_length sys.world.sched.levels + in_hand t ≤ max_queue_size =
        omega (arith, s.few, s.within, in_hands-set sys.cpus n t idle at) in
      omega (arith, none_lost a h, r.none_lost room a h, held-set a sys.cpus n t t' at);
}

pub loader_Next :
    (entries : List Entry) (sys : System) (r : Option (World × ℕ × End))
    → IsSafe entries sys
    → LoaderTurned entries sys.world sys.loaded r
    → NextIf entries sys
        (elim r [ none ↦ none | some (w, i, _) ↦ some (record sys { world = w; loaded = i }) ])
loader_Next entries sys none s l = tt
loader_Next entries sys (some (w, i, end)) s (inl (e, r)) = record {
  safe = record {
    sound = r.sound;
    once = λ a h. omega (arith, s.once a h, r.none_gained a h);
    few = omega (arith, s.few, r.fewer, e);
    within = omega (arith, s.within, e);
  };
  kept = λ small none_lost a h.
      omega (arith, none_lost a h, r.none_lost (omega (arith, s.few, s.within)) a h);
}
loader_Next entries sys (some (w, i, end)) s (inr (e, h', r)) = record {
  safe = record {
    sound = r.sound;
    once = λ a h. omega (arith, s.once a h, r.none_gained a h);
    few = omega (arith, s.few, r.fewer, e);
    within = omega (arith, h', e);
  };
  kept = λ small none_lost a h.
      omega (arith, none_lost a h, r.none_lost (omega (arith, s.few, s.within)) a h);
}

pub cpu_turn-Next :
    (st : Setting) (entries : List Entry) (sys : System) (n : ℕ)
    → IsSafe entries sys
    → NextIf entries sys (turn st entries sys (cpu_turn n))
unfolding turn
cpu_turn-Next st entries sys n s = elim (Option-cases (get_elem? sys.cpus n)) [
  | inl no_cpu ↦
      let same : turn st entries sys (cpu_turn n) ≡ some sys = rw (turn, no_cpu) refl in
      subst (NextIf entries sys) (sym same)
        (record { safe = s; kept = λ small none_lost. none_lost })
  | inr (t, at) ↦
      go t at (cpu_step st sys.world t.place t.cpu) refl
        (cpu_step-Turned st sys.world t.place t.cpu s.sound)
]
  where
    go :
        (t : Thread)
        → get_elem? sys.cpus n ≡ some t
        → (r : Option (World × Thread)) → cpu_step st sys.world t.place t.cpu ≡ r
        → Turned sys.world (λ a. holds a t) (in_hand t) r
        → NextIf entries sys (turn st entries sys (cpu_turn n))
    go t at none e r =
        let fault : turn st entries sys (cpu_turn n) ≡ none = rw (turn, at, e) refl in
        subst (NextIf entries sys) (sym fault) tt
    go t at (some (w, t')) e r =
        let result : turn st entries sys (cpu_turn n)
            ≡ some (record sys { world = w; cpus = set sys.cpus n t' }) =
          rw (turn, at, e) refl in
        subst (NextIf entries sys) (sym result) (cpu_Next entries sys n t w t' s at r)
