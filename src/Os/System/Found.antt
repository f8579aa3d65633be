-- ===== src/Os/System/Found.antt =====
-- The processes that CPUs have at hand are found by the memory system call of src/sys_mem.c.
use os_lamina_atrium.Base.{
  ℕ, ◌≤◌, ◌<◌, ◌≡◌, ◌≢◌, refl, ap, subst, inl, inr, true, false, List, [], ◌∷◌, Option, none, some,
  ◌==◌, ==_iff, arith, length, set, get_elem?, count, All, Bool-cases,
}
use os_lamina_atrium.Queue.{null, max_queue_size}
use os_lamina_atrium.Queue.Refine.{IsProc}
use os_lamina_atrium.Paging.Table.Owner.{update_self}
use os_lamina_atrium.Memphy.{Memphy}
use os_lamina_atrium.Sched.{Sched, zeroed, init_scheduler}
use os_lamina_atrium.Mm.{Machine, update}
use os_lamina_atrium.Cpu.{Process, Env}
use os_lamina_atrium.Syscall.{find_proc_in_queue}
use os_lamina_atrium.Syscall.Find.{first_with, find_proc_in_queue_lem}
use os_lamina_atrium.Syscall.Table.{Kernel, is_listed}
use os_lamina_atrium.Os.{World, Setting, env}
use os_lamina_atrium.Os.Boot.{Config, main, rounds}
use os_lamina_atrium.Os.System.{
  at_top, at_reload, Thread, release_proc, cpu_step, System, Turn, cpu_turn, turn, turns,
}
use os_lamina_atrium.Os.System.Loading.{IsFresh, IsPrio}
use os_lamina_atrium.Os.System.Preserve.{IsSafe}
use os_lamina_atrium.Os.System.Safety.{
  booted, booted_config, main-booted, booted-IsSafe, held-booted, ready_length-booted,
}
use os_lamina_atrium.Os.System.Places.{Has, one_held, Has-holds}
use os_lamina_atrium.Os.System.Listed.{running}
use os_lamina_atrium.Os.System.AreListed.{AreListed, turns-AreListed}

booted-AreListed : (n : ℕ) (m : Machine) → AreListed (booted n m)
unfolding init_scheduler
booted-AreListed n m = record {
  room = omega (arith, ready_length-booted 0 (Sched.levels zeroed));
  listed = λ a h. omega (arith, held-booted a n h);
  linked = λ h. absurd (omega (arith, h));
}

-- A process of a list is found by its number, or one before it with the same number.
first_with_found :
    (pid_of : ℕ → ℕ) (pid p : ℕ) (xs : List ℕ)
    → All IsProc xs
    → pid_of p ≡ pid
    → 0 < count p xs
    → first_with pid_of pid xs ≢ null
first_with_found pid_of pid p [] h e found = absurd (omega (arith, found))
first_with_found pid_of pid p (x ∷ xs) (here, later) e found = elim (Bool-cases (pid_of x == pid)) [
  | inl same ↦ λ z. here (ground (arith, same, z))
  | inr other ↦ elim (Bool-cases (x == p)) [
    | inl is_it ↦
        let is_p : x ≡ p = (==_iff x p).0 is_it in absurd (ground (arith, other, ap pid_of is_p, e))
    | inr not_it ↦ λ z.
        first_with_found pid_of pid p xs later e (ground (arith, found, not_it))
          (ground (arith, other, z))
  ]
]

count-length : (p : ℕ) (xs : List ℕ) → 0 < count p xs → 0 < length xs
count-length p [] h = absurd (omega (arith, h))
count-length p (x ∷ xs) h = omega arith

module _ (st : Setting) (junk : List ℕ) (mp : Memphy) (config : Config)
    (fresh : IsFresh st.malloc_pcb) (prios : All IsPrio config.processes) (ts : List Turn)
    (sys : System) (e : turns st config.processes (main junk mp config).system ts ≡ some sys) where
  listed_now :
      length config.processes ≤ max_queue_size → AreListed sys × IsSafe config.processes sys
  unfolding booted_config
  listed_now small =
      let n = rounds config.num_cpus in
      let m = (main junk mp config).system.world.machine in
      turns-AreListed st config.processes ts (booted_config junk mp config) sys fresh prios small
        (booted-IsSafe config.processes n m) (booted-AreListed n m)
        (subst (λ (x : System). turns st config.processes x ts ≡ some sys)
          (main-booted junk mp config) e)

  -- A process at hand is listed.
  listed_at_hand :
      (i p : ℕ)
      → p ≢ null
      → length config.processes ≤ max_queue_size
      → Has sys i p
      → 0 < count p (running sys.world)
  listed_at_hand i p h small has =
      let (l, _) = listed_now small in
      omega (arith, l.listed p h, one_held p sys.cpus i has.thread has.there, Has-holds sys i p has)

  -- Whatever turns the CPUs and the loader have taken since `main` started them, in any order: if
  -- `malloc` gives unused blocks, the configuration's priorities are in range, and it has at most
  -- `MAX_QUEUE_SIZE` processes, the memory system call finds the number of a process that a CPU has
  -- at hand, so it does not refuse that process's requests.
  pub turns-is_listed :
      (i p : ℕ) (proc : Process)
      → p ≢ null
      → length config.processes ≤ max_queue_size
      → Has sys i p
      → sys.world.procs p ≡ some proc
      → is_listed (Env.kernel (env st sys.world)) proc.pid ≡ true
  unfolding is_listed
  turns-is_listed i p proc h small has there =
      let (l, s) = listed_now small in
      let found = listed_at_hand i p h small has in
      let pid_of = Kernel.pid_of (Env.kernel (env st sys.world)) in
      let read : Option Process → Process = λ o. elim o [ none ↦ st.freed p | some q ↦ q ] in
      let same : pid_of p ≡ proc.pid = ap (λ (o : Option Process). Process.pid (read o)) there in
      let queue = sys.world.sched.running_list in
      let first =
        first_with_found pid_of proc.pid p (running sys.world)
          s.sound.sched_valid.running_valid.present same found in
      let looked = find_proc_in_queue_lem pid_of queue proc.pid s.sound.sched_valid.running_valid in
      let present : (find_proc_in_queue pid_of queue proc.pid == null) ≡ false =
        ground (arith, looked, first) in
      let linked = l.linked (omega (arith, l.room, count-length p (running sys.world) found)) in
      rw (is_listed, linked, present) refl

  -- Whatever turns the CPUs and the loader have taken since `main` started them, in any order: if
  -- `malloc` gives unused blocks, the configuration's priorities are in range, and it has at most
  -- `MAX_QUEUE_SIZE` processes, the turn of a CPU at the top of its loop whose process has come to
  -- its end frees the process and leaves it on the running list.
  pub turns_finished :
      (i : ℕ) (t : Thread) (proc : Process)
      → t.cpu.proc ≢ null
      → length config.processes ≤ max_queue_size
      → get_elem? sys.cpus i ≡ some t
      → t.place ≡ at_top
      → sys.world.procs t.cpu.proc ≡ some proc
      → proc.pc ≡ length proc.code
      → (sys' : System) × (turn st config.processes sys (cpu_turn i) ≡ some sys')
        × (sys'.world.procs t.cpu.proc ≡ none)
        × (0 < count t.cpu.proc (running sys'.world))
  unfolding turn cpu_step release_proc
  turns_finished i t proc h small at top there finished =
      let p : ℕ = t.cpu.proc in
      let found =
        listed_at_hand i p h small
          (record { thread = t; there = at; at_hand = refl; not_let_go = λ e'. cc (e', top) }) in
      let present : (p == null) ≡ false = ground (arith, h) in
      let over : (proc.pc == length proc.code) ≡ true = ground (arith, finished) in
      let w' : World = record (sys.world) { procs = update sys.world.procs p none } in
      let t' : Thread = record { cpu = record (t.cpu) { time_left = 0 }; place = at_reload } in
      let step : cpu_step st sys.world t.place t.cpu ≡ some (w', t') =
        rw (top, cpu_step, present, release_proc, there, over) refl in
      (
        record sys { world = w'; cpus = set sys.cpus i t' },
        rw (turn, at, step) refl,
        update_self sys.world.procs p none,
        found,
      )
