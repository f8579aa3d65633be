-- ===== src/Os/System/AreListed.antt =====
-- The running list of src/sched.c over any number of turns of the threads of src/os.c.
use os_lamina_atrium.Base.{
  ℕ, ◌≤◌, ◌<◌, ◌≡◌, ◌≢◌, refl, sym, ◌∙◌, subst, inl, inr, true, List, [], ◌∷◌, Option, none, some,
  ◌==◌, arith, length, set, get_elem?, count, All, Bool-cases, Option-cases,
}
use os_lamina_atrium.Queue.{null, max_queue_size}
use os_lamina_atrium.Queue.Refine.{IsProc}
use os_lamina_atrium.Os.{World, Setting, End, Entry, ld_round}
use os_lamina_atrium.Os.System.{
  at_reload, Thread, System, Turn, cpu_turn, loader_turn, cpu_step, turn, turns,
}
use os_lamina_atrium.Os.System.Account.{holds}
use os_lamina_atrium.Os.System.Loading.{IsFresh, IsPrio}
use os_lamina_atrium.Os.System.Preserve.{held, held-set, IsSafe, NextIf}
use os_lamina_atrium.Os.System.Safety.{turn-Next}
use os_lamina_atrium.Os.System.Places.{one_held, holds_one}
use os_lamina_atrium.Os.System.Listed.{running, listed_or_ready}
use os_lamina_atrium.Os.System.ListingTurns.{LoadListing, cpu_step-CpuListing, ld_round-LoadListing}
use os_lamina_atrium.Os.System.Listings.{CpuListing}

-- The processes at hand are in the running list, which has room for all that have been loaded.
pub record AreListed (sys : System) : Type 0 where
  pub room : listed_or_ready sys.world ≤ sys.loaded
  pub listed : (a : ℕ) → IsProc a → held a sys.cpus ≤ count a (running sys.world)
  pub linked : 0 < sys.loaded → sys.world.sched.linked ≡ true

abbrev ListedIf : Option System → Type 0
ListedIf none = Unit
ListedIf (some sys) = AreListed sys

cpu_turn-ListedIf :
    (st : Setting) (entries : List Entry) (sys : System) (n : ℕ)
    → length entries ≤ max_queue_size
    → IsSafe entries sys
    → AreListed sys
    → ListedIf (turn st entries sys (cpu_turn n))
unfolding turn
cpu_turn-ListedIf st entries sys n small s l = elim (Option-cases (get_elem? sys.cpus n)) [
  | inl no_cpu ↦
      let same : turn st entries sys (cpu_turn n) ≡ some sys = rw (turn, no_cpu) refl in
      subst ListedIf (sym same) l
  | inr (t, at) ↦ go t at (cpu_step st sys.world t.place t.cpu) refl (
      cpu_step-CpuListing st sys.world t.place t.cpu s.sound
        (omega (arith, l.room, s.within, small)) (found t at))
]
  where
    found :
        (t : Thread)
        → get_elem? sys.cpus n ≡ some t
        → t.place ≢ at_reload
        → t.cpu.proc ≢ null
        → 0 < count t.cpu.proc (running sys.world)
    found t at here is_proc = omega (
      arith,
      l.listed t.cpu.proc is_proc,
      one_held t.cpu.proc sys.cpus n t at,
      holds_one t.cpu.proc t refl here,
    )

    go :
        (t : Thread)
        → get_elem? sys.cpus n ≡ some t
        → (r : Option (World × Thread)) → cpu_step st sys.world t.place t.cpu ≡ r
        → CpuListing sys.world (λ a. holds a t) r
        → ListedIf (turn st entries sys (cpu_turn n))
    go t at none e r =
        let fault : turn st entries sys (cpu_turn n) ≡ none = rw (turn, at, e) refl in
        subst ListedIf (sym fault) tt
    go t at (some (w, t')) e r =
        let result : turn st entries sys (cpu_turn n)
            ≡ some (record sys { world = w; cpus = set sys.cpus n t' }) =
          rw (turn, at, e) refl in
        subst ListedIf (sym result) (record {
          room = omega (arith, r.room, l.room);
          listed = λ a h. omega (arith, l.listed a h, r.listed a h, held-set a sys.cpus n t t' at);
          linked = λ h. r.linked (l.linked h);
        })

loader-ListedIf :
    (sys : System) (r : Option (World × ℕ × End))
    → AreListed sys
    → LoadListing sys.world sys.loaded r
    → ListedIf
        (elim r [ none ↦ none | some (w, i, _) ↦ some (record sys { world = w; loaded = i }) ])
loader-ListedIf sys none l h = tt
loader-ListedIf sys (some (w, i, end)) l (k, e, h) = record {
  room = omega (arith, l.room, h.room, e);
  listed = λ a h'. omega (arith, l.listed a h', h.listed a h');
  linked = λ some_loaded. elim (Bool-cases (k == 0)) [
    | inl none_more ↦ h.linked (l.linked (ground (arith, e, none_more, some_loaded)))
    | inr more ↦ h.links (ground (arith, more))
  ];
}

turn-ListedIf :
    (st : Setting) (entries : List Entry) (sys : System) (t : Turn)
    → length entries ≤ max_queue_size
    → IsSafe entries sys
    → AreListed sys
    → ListedIf (turn st entries sys t)
unfolding turn
turn-ListedIf st entries sys (cpu_turn n) small s l = cpu_turn-ListedIf st entries sys n small s l
turn-ListedIf st entries sys (loader_turn now) small s l =
    loader-ListedIf sys (ld_round st entries now sys.world sys.loaded) l
      (ld_round-LoadListing st entries now sys.world sys.loaded s.sound)

pub turns-AreListed :
    (st : Setting) (entries : List Entry) (ts : List Turn) (sys sys' : System)
    → IsFresh st.malloc_pcb
    → All IsPrio entries
    → length entries ≤ max_queue_size
    → IsSafe entries sys
    → AreListed sys
    → turns st entries sys ts ≡ some sys'
    → AreListed sys' × IsSafe entries sys'
unfolding turns
turns-AreListed st entries [] sys sys' fresh prios small s l e =
    subst (λ (o : Option System). ListedIf o × SafeIf o) e (l, s)
  where
    SafeIf : Option System → Type 0
    SafeIf none = Unit
    SafeIf (some x) = IsSafe entries x
turns-AreListed st entries (t ∷ ts) sys sys' fresh prios small s l e =
    elim (Option-cases (turn st entries sys t)) [
      | inl fault ↦
          let no_end : turns st entries sys (t ∷ ts) ≡ none = rw (turns, fault) refl in
          cc (no_end, e)
      | inr (mid, e') ↦
          let more : turns st entries sys (t ∷ ts) ≡ turns st entries mid ts =
            rw (turns, e') refl in
          let next = subst (NextIf entries sys) e' (turn-Next st entries fresh prios sys t s) in
          turns-AreListed st entries ts mid sys' fresh prios small next.safe
            (subst ListedIf e' (turn-ListedIf st entries sys t small s l)) (sym more ∙ e)
    ]
