-- ===== src/Os/System/ListingTurns.antt =====
-- src/os.c: the running list over one turn of any thread.
use os_lamina_atrium.Base.{
  ℕ, ◌+◌, ◌≤◌, ◌<◌, ◌≡◌, ◌≢◌, refl, sym, subst, inl, inr, true, false, List, Option, none, some,
  ◌==◌, ==_iff, ltb, arith, one_if, count, get_elem?, Bool-cases, Option-cases,
}
use os_lamina_atrium.Words.{u32}
use os_lamina_atrium.Queue.{null, max_queue_size}
use os_lamina_atrium.Mm.{update}
use os_lamina_atrium.Paging.Range.{init_mm}
use os_lamina_atrium.Sched.{Sched, add_proc, add_mlq_proc, enqueue_at}
use os_lamina_atrium.Sched.Ready.{ready_length-enqueue_at}
use os_lamina_atrium.Cpu.{Process}
use os_lamina_atrium.Loader.{load}
use os_lamina_atrium.Os.{World, Setting, Cpu, End, Entry, start_proc, load_entry, ld_round}
use os_lamina_atrium.Os.System.{
  Place, at_top, at_first, at_reload, at_recheck, at_exit, Thread, release_proc, reload, cpu_step,
}
use os_lamina_atrium.Os.System.Account.{holds, Sound}
use os_lamina_atrium.Os.System.Listed.{running, listed_or_ready, Listing, next_proc-Listing}
use os_lamina_atrium.Os.System.Listings.{
  CpuListing, With, same_lists, serve-With, serve_first-With, release_proc-With,
}

top-With :
    (st : Setting) (w : World) (cpu : Cpu)
    → Sound w
    → listed_or_ready w ≤ max_queue_size
    → (cpu.proc ≢ null → 0 < count cpu.proc (running w))
    → With w cpu.proc (cpu_step st w at_top cpu)
unfolding cpu_step reload
top-With st w cpu s small found = elim (Bool-cases (cpu.proc == null)) [
  | inl absent ↦
      let loaded : cpu_step st w at_top cpu ≡ some (reload w cpu at_first) =
        rw (cpu_step, absent) refl in
      let next = next_proc-Listing w cpu s small in
      let is_null = (==_iff cpu.proc null).0 absent in
      subst (With w cpu.proc) (sym loaded) (record {
        room = next.room;
        listed = λ a h. ground (arith, next.listed a h, is_null);
        linked = next.linked;
        links = next.links;
      })
  | inr present ↦
      let released : cpu_step st w at_top cpu ≡ release_proc w cpu = rw (cpu_step, present) refl in
      let is_proc : cpu.proc ≢ null = λ z. ground (arith, present) in
      subst (With w cpu.proc) (sym released) (release_proc-With w cpu s is_proc (found is_proc))
]

pub cpu_step-CpuListing :
    (st : Setting) (w : World) (place : Place) (cpu : Cpu)
    → Sound w
    → listed_or_ready w ≤ max_queue_size
    → (place ≢ at_reload → cpu.proc ≢ null → 0 < count cpu.proc (running w))
    → let t : Thread = record { cpu = cpu; place = place } in
      CpuListing w (λ a. holds a t) (cpu_step st w place cpu)
unfolding cpu_step reload
cpu_step-CpuListing st w at_top cpu s small found =
    top-With st w cpu s small (found (λ same. cc (same)))
cpu_step-CpuListing st w at_first cpu s small found = serve_first-With st w cpu
cpu_step-CpuListing st w at_reload cpu s small found = next_proc-Listing w cpu s small
cpu_step-CpuListing st w at_recheck cpu s small found = serve-With st w cpu
cpu_step-CpuListing st w at_exit cpu s small found = same_lists w (λ a. one_if a cpu.proc)

-- The loader's turn, if there is no fault: it has loaded `k` processes.
abbrev pub LoadListing : World → ℕ → Option (World × ℕ × End) → Type 0
LoadListing w i none = Unit
LoadListing w i (some (w', i', end)) = (k : ℕ) × (i' ≡ i + k) × Listing w (λ a. 0) w' (λ a. 0) k

abbrev OneListed : World → Option World → Type 0
OneListed w none = Unit
OneListed w (some w') = Listing w (λ a. 0) w' (λ a. 0) 1

start_proc-OneListed :
    (st : Setting) (w : World) (at prio : ℕ) (p : Process)
    → Sound w
    → OneListed w (start_proc st w at prio p)
unfolding start_proc add_proc add_mlq_proc
start_proc-OneListed st w at prio p s =
    let fault = λ (e : start_proc st w at prio p ≡ none). subst (OneListed w) (sym e) tt in
    elim (Option-cases (init_mm st.malloc st.node (record { mm = p.mm; machine = w.machine }))) [
      | inl none_left ↦ fault (rw (start_proc, none_left) refl)
      | inr ((stat, c), made) ↦ elim (Option-cases (enqueue_at (u32 prio) at w.sched.levels)) [
        | inl no_level ↦ fault (rw (start_proc, made, no_level) refl)
        | inr (levels, added) ↦
            let longer =
              ready_length-enqueue_at 0 at (u32 prio) w.sched.levels levels
                s.sched_valid.levels_valid added in
            let sched : Sched = record (w.sched) { levels = levels; linked = true } in
            let w' : World = record w {
              sched = sched;
              procs = update w.procs at (some (record p { prio = u32 prio; mm = c.mm }));
              machine = c.machine;
            } in
            let result : start_proc st w at prio p ≡ some w' = rw (start_proc, made, added) refl in
            subst (OneListed w) (sym result) (record {
              room = omega (arith, longer);
              listed = λ a h. omega arith;
              linked = λ e. refl;
              links = λ h. refl;
            })
      ]
    ]

counted_too :
    (w : World) (pid : ℕ) (r : Option World)
    → OneListed (record w { avail_pid = pid }) r
    → OneListed w r
counted_too w pid none l = tt
counted_too w pid (some w') l = record {
  room = l.room;
  listed = l.listed;
  linked = l.linked;
  links = l.links;
}

load_entry-OneListed :
    (st : Setting) (w : World) (e : Entry) → Sound w → OneListed w (load_entry st w e)
unfolding load_entry
load_entry-OneListed st w e s =
    let fault = λ (e' : load_entry st w e ≡ none). subst (OneListed w) (sym e') tt in
    elim (Option-cases (st.malloc_pcb w.procs)) [
      | inl none_left ↦ fault (rw (load_entry, none_left) refl)
      | inr (at, given) ↦ elim (Option-cases (load st.junk w.avail_pid e.file)) [
        | inl no_file ↦ fault (rw (load_entry, given, no_file) refl)
        | inr ((p, pid), read) ↦
            let counted : World = record w { avail_pid = pid } in
            let started : load_entry st w e ≡ start_proc st counted at e.prio p =
              rw (load_entry, given, read) refl in
            subst (OneListed w) (sym started) (
              counted_too w pid (start_proc st counted at e.prio p) (
                start_proc-OneListed st counted at e.prio p
                  (record { sched_valid = s.sched_valid; prio_valid = s.prio_valid })))
      ]
    ]

pub ld_round-LoadListing :
    (st : Setting) (entries : List Entry) (now : ℕ) (w : World) (i : ℕ)
    → Sound w
    → LoadListing w i (ld_round st entries now w i)
unfolding ld_round
ld_round-LoadListing st entries now w i s = elim (Option-cases (get_elem? entries i)) [
  | inl none_left ↦
      rw (ld_round, none_left)
        (
          0,
          (omega arith),
          record {
            room = omega arith;
            listed = λ a h. omega arith;
            linked = λ e. e;
            links = λ h. absurd (omega (arith, h));
          },
        )
  | inr (e, found) ↦ elim (Bool-cases (ltb now e.start_time)) [
    | inl early ↦ rw (ld_round, found, early) (0, (omega arith), same_lists w (λ a. 0))
    | inr due ↦ go e found due (load_entry st w e) refl (load_entry-OneListed st w e s)
  ]
]
  where
    go :
        (e : Entry)
        → get_elem? entries i ≡ some e
        → ltb now e.start_time ≡ false
        → (r : Option World) → load_entry st w e ≡ r
        → OneListed w r
        → LoadListing w i (ld_round st entries now w i)
    go e found due none loaded l = rw (ld_round, found, due, loaded) tt
    go e found due (some w') loaded l = rw (ld_round, found, due, loaded) (1, refl, l)
