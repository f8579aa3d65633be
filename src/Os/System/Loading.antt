-- ===== src/Os/System/Loading.antt =====
-- What one turn of the loader changes of where the processes are.
use os_lamina_atrium.Base.{
  ℕ, zero, suc, ◌+◌, ◌<◌, ◌≡◌, ◌≢◌, refl, sym, subst, ◌⊎◌, inl, inr, false, List, [], ◌∷◌, Option,
  none, some, ◌==◌, ltb, arith, length, get_elem?, get_elem?-some, All, Bool-cases, Option-cases,
}
use os_lamina_atrium.Words.{u32}
use os_lamina_atrium.Queue.{null}
use os_lamina_atrium.Mm.{Machine, update}
use os_lamina_atrium.Paging.Range.{init_mm}
use os_lamina_atrium.Sched.{Sched, max_prio, enqueue_at, add_proc, add_mlq_proc}
use os_lamina_atrium.Sched.Inv.{IsValid, add_mlq_proc-IsValid}
use os_lamina_atrium.Queue.Refine.{IsProc}
use os_lamina_atrium.Sched.Conserve.{enqueue_at_count}
use os_lamina_atrium.Sched.Ready.{ready_length-enqueue_at, level_full_lem}
use os_lamina_atrium.Cpu.{Process}
use os_lamina_atrium.Loader.{load}
use os_lamina_atrium.Os.{World, Setting, End, Entry, start_proc, load_entry, ld_round}
use os_lamina_atrium.Os.System.Account.{Sound, Effect}

-- What `malloc` promises: a block that is not NULL, and not one that is in use.
abbrev pub IsFresh : ((ℕ → Option Process) → Option ℕ) → Type 0
IsFresh malloc =
    (procs : ℕ → Option Process) (a : ℕ) → malloc procs ≡ some a → (a ≢ null) × (procs a ≡ none)

-- The priority of a configuration's entry is one of the scheduler's.
abbrev pub IsPrio : Entry → Type 0
IsPrio e = u32 e.prio < max_prio

-- `add_proc` of a process that `malloc` has just given
add_proc-Effect :
    (w : World) (at : ℕ) (p : Process) (m : Machine) (sched : Sched)
    → Sound w
    → at ≢ null
    → w.procs at ≡ none
    → p.prio < max_prio
    → add_proc w.sched at p.prio ≡ some sched
    → Effect w
        (λ a. 0)
        1
        (record w { sched = sched; procs = update w.procs at (some p); machine = m })
        (λ a. 0)
        0
unfolding add_proc add_mlq_proc
add_proc-Effect w at p m sched s h unused small e =
    let (same, e', v) = add_mlq_proc-IsValid w.sched at p.prio small s.sched_valid in
    elim (Option-cases (enqueue_at p.prio at w.sched.levels)) [
      | inl none_left ↦ absurd (ground (arith, none_left, e))
      | inr (rest, found) ↦
          let same_levels : rest ≡ sched.levels = ground (arith, found, e) in
          let found' : enqueue_at p.prio at w.sched.levels ≡ some sched.levels =
            rw same_levels at found in
          let counts = λ (a : ℕ) (h : IsProc a).
            enqueue_at_count 0 a at p.prio w.sched.levels sched.levels h s.sched_valid.levels_valid
              found' in
          record {
            sound = record {
              sched_valid = subst IsValid (ground (arith, e, e')) v;
              prio_valid = λ a q e''. elim (Bool-cases (a == at)) [
                | inl here ↦ ground (arith, here, e'', small)
                | inr other ↦ s.prio_valid a q (ground (arith, other, e''))
              ];
            };
            none_gained = λ a h. ground (arith, counts a h, unused);
            none_lost =
                λ few a h. ground (arith, counts a h, unused, level_full_lem p.prio w.sched.levels);
            fewer = omega (
              arith,
              ready_length-enqueue_at 0 at p.prio w.sched.levels sched.levels
                  s.sched_valid.levels_valid found',
            );
          }
    ]

-- The effect of a loaded process, if there is no fault.
abbrev pub Loaded : World → Option World → Type 0
Loaded w none = Unit
Loaded w (some w') = Effect w (λ a. 0) 1 w' (λ a. 0) 0

start_proc-Loaded :
    (st : Setting) (w : World) (at prio : ℕ) (p : Process)
    → Sound w
    → at ≢ null
    → w.procs at ≡ none
    → u32 prio < max_prio
    → Loaded w (start_proc st w at prio p)
unfolding start_proc
start_proc-Loaded st w at prio p s h unused small =
    let fault = λ (e : start_proc st w at prio p ≡ none). subst (Loaded w) (sym e) tt in
    elim (Option-cases (init_mm st.malloc st.node (record { mm = p.mm; machine = w.machine }))) [
      | inl none_left ↦ fault (rw (start_proc, none_left) refl)
      | inr ((stat, c), made) ↦ elim (Option-cases (add_proc w.sched at (u32 prio))) [
        | inl no_level ↦ fault (rw (start_proc, made, no_level) refl)
        | inr (sched, added) ↦
            let p' : Process = record p { prio = u32 prio; mm = c.mm } in
            let w' : World = record w {
              sched = sched;
              procs = update w.procs at (some p');
              machine = c.machine;
            } in
            let result : start_proc st w at prio p ≡ some w' = rw (start_proc, made, added) refl in
            subst (Loaded w) (sym result)
              (add_proc-Effect w at p' c.machine sched s h unused small added)
      ]
    ]

load_entry-Loaded :
    (st : Setting) (w : World) (e : Entry)
    → Sound w
    → IsFresh st.malloc_pcb
    → IsPrio e
    → Loaded w (load_entry st w e)
unfolding load_entry
load_entry-Loaded st w e s fresh small =
    let fault = λ (e' : load_entry st w e ≡ none). subst (Loaded w) (sym e') tt in
    elim (Option-cases (st.malloc_pcb w.procs)) [
      | inl none_left ↦ fault (rw (load_entry, none_left) refl)
      | inr (at, given) ↦ elim (Option-cases (load st.junk w.avail_pid e.file)) [
        | inl no_file ↦ fault (rw (load_entry, given, no_file) refl)
        | inr ((p, pid), read) ↦
            let counted : World = record w { avail_pid = pid } in
            let started : load_entry st w e ≡ start_proc st counted at e.prio p =
              rw (load_entry, given, read) refl in
            let (h, unused) = fresh w.procs at given in
            subst (Loaded w) (sym started) (
              counted_too w pid (start_proc st counted at e.prio p) (
                start_proc-Loaded st counted at e.prio p
                  (record { sched_valid = s.sched_valid; prio_valid = s.prio_valid }) h unused
                  small))
      ]
    ]
  where
    counted_too :
        (w : World) (pid : ℕ) (r : Option World)
        → Loaded (record w { avail_pid = pid }) r
        → Loaded w r
    counted_too w pid none l = tt
    counted_too w pid (some w') l = record {
      sound = l.sound;
      none_gained = l.none_gained;
      none_lost = l.none_lost;
      fewer = l.fewer;
    }

-- The loader's turn has loaded its next process, or none.
abbrev pub LoaderTurned : List Entry → World → ℕ → Option (World × ℕ × End) → Type 0
LoaderTurned entries w i none = Unit
LoaderTurned entries w i (some (w', i', end)) =
    ((i' ≡ i) × Effect w (λ a. 0) 0 w' (λ a. 0) 0)
    ⊎ ((i' ≡ i + 1) × (i < length entries) × Effect w (λ a. 0) 1 w' (λ a. 0) 0)

get_elem?-All :
    (es : List Entry) (i : ℕ) (e : Entry) → All IsPrio es → get_elem? es i ≡ some e → IsPrio e
get_elem?-All [] i e h found = cc (found)
get_elem?-All (x ∷ es) zero e h found = ground (arith, found, h.0)
get_elem?-All (x ∷ es) (suc i) e h found = get_elem?-All es i e h.1 found

pub ld_round-LoaderTurned :
    (st : Setting) (entries : List Entry) (now : ℕ) (w : World) (i : ℕ)
    → Sound w
    → IsFresh st.malloc_pcb
    → All IsPrio entries
    → LoaderTurned entries w i (ld_round st entries now w i)
unfolding ld_round
ld_round-LoaderTurned st entries now w i s fresh small = elim (Option-cases (get_elem? entries i)) [
  | inl none_left ↦
      rw (ld_round, none_left)
        (inl (
          refl,
          record {
            sound = record { sched_valid = s.sched_valid; prio_valid = s.prio_valid };
            none_gained = λ a h. omega arith;
            none_lost = λ few a h. omega arith;
            fewer = omega arith;
          },
        ))
  | inr (e, found) ↦ elim (Bool-cases (ltb now e.start_time)) [
    | inl early ↦
        rw (ld_round, found, early)
          (inl (
            refl,
            record {
              sound = s;
              none_gained = λ a h. omega arith;
              none_lost = λ few a h. omega arith;
              fewer = omega arith;
            },
          ))
    | inr due ↦
        go e found due (load_entry st w e) refl
          (load_entry-Loaded st w e s fresh (get_elem?-All entries i e small found))
  ]
]
  where
    go :
        (e : Entry)
        → get_elem? entries i ≡ some e
        → ltb now e.start_time ≡ false
        → (r : Option World) → load_entry st w e ≡ r
        → Loaded w r
        → LoaderTurned entries w i (ld_round st entries now w i)
    go e found due none loaded l = rw (ld_round, found, due, loaded) tt
    go e found due (some w') loaded l =
        rw (ld_round, found, due, loaded) (inr (refl, get_elem?-some entries i e found, l))
