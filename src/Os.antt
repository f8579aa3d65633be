-- ===== src/Os.antt =====
-- src/os.c: one round of the loop of each CPU (`cpu_routine`) and of the loader (`ld_routine`), over
-- the scheduler, the processes in memory, and the machine. A round ends where the thread calls
-- `next_slot`, or stops. It is a fault where these loops read or write a process that is freed. The
-- search on the running list in src/sys_mem.c may read one too: it finds there what its memory holds,
-- which is the parameter `freed`.
pub mod Idle
pub mod Quantum
pub mod Slot
pub mod System
pub mod Boot
use os_lamina_atrium.Base.{
  ℕ, ◌+◌, ◌-◌, ◌^◌, Bool, true, List, Option, none, some, ◌==◌, ltb, if◌then◌else◌, get_elem?,
  length,
}
use os_lamina_atrium.Words.{u32}
use os_lamina_atrium.Queue.{null}
use os_lamina_atrium.Mm.{Machine, Malloc, update}
use os_lamina_atrium.Paging.Range.{init_mm}
use os_lamina_atrium.Sched.{Sched, get_proc, put_proc, add_proc}
use os_lamina_atrium.Syscall.Table.{Kernel}
use os_lamina_atrium.Cpu.{Process, Env, run}
use os_lamina_atrium.Loader.{File, Junk, load}

-- What all threads share; `done` is set when the loader has finished.
pub record World : Type 0 where
  pub sched : Sched
  pub procs : ℕ → Option Process
  pub machine : Machine
  pub avail_pid : ℕ
  pub done : Bool

-- What stays as it is: `malloc` for tables and for processes, whether there is memory for a
-- descriptor, the time slot of the configuration, and what memory that nothing has set holds.
pub record Setting : Type 0 where
  pub malloc : Malloc
  pub malloc_pcb : (ℕ → Option Process) → Option ℕ
  pub node : Bool
  pub time_slot : ℕ
  pub junk : Junk
  pub byte : ℕ
  pub freed : ℕ → Process

-- A process, or what the memory of a freed one holds.
abbrev in_memory : Setting → World → ℕ → Process
in_memory st w p = elim (w.procs p) [ none ↦ st.freed p | some proc ↦ proc ]

abbrev kernel : Setting → World → Kernel
kernel st w = record {
  sched = w.sched;
  pid_of = λ p. Process.pid (in_memory st w p);
  prio_of = λ p. Process.prio (in_memory st w p);
}

abbrev pub env : Setting → World → Env
env st w = record { malloc = st.malloc; node = st.node; kernel = kernel st w; byte = st.byte }

-- The local variables of `cpu_routine`; `time_left` is the pattern of an `int`.
pub record Cpu : Type 0 where
  pub proc : ℕ
  pub time_left : ℕ

-- `proc = get_proc()`
unfoldable pub next_proc : World → Cpu → World × Cpu
unfolding get_proc
next_proc w cpu =
    let (proc, sched) = get_proc w.sched in (record w { sched = sched }, record cpu { proc = proc })

-- The first `if` for a process at hand: it has finished, or its time is over, or it goes on.
unfoldable pub check_status : World → Cpu → Option (World × Cpu)
unfolding next_proc put_proc
check_status w cpu = elim (w.procs cpu.proc) [
  | none ↦ none
  | some p ↦
      if p.pc == length p.code
      then some (
          next_proc (record w { procs = update w.procs cpu.proc none })
            (record cpu { time_left = 0 }))
      else if cpu.time_left == 0
      then elim (put_proc w.sched cpu.proc p.prio) [
        | none ↦ none
        | some sched ↦ some (next_proc (record w { sched = sched }) cpu)
      ]
      else some (w, cpu)
]

-- `run(proc); time_left--;`
unfoldable pub run_proc : Setting → World → Cpu → Option (World × Cpu)
unfolding run
run_proc st w cpu = elim (w.procs cpu.proc) [
  | none ↦ none
  | some p ↦ elim (run (env st w) p w.machine) [
    | none ↦ none
    | some (_, p', machine) ↦ some (
      record w { procs = update w.procs cpu.proc (some p'); machine = machine },
      record cpu { time_left = u32 (cpu.time_left + 2 ^ 32 - 1) },
    )
  ]
]

-- How a round of a thread ends: at `next_slot`, or at the end of the thread.
pub data End : Type 0 where
  slot_over stopped : End

-- A round of a CPU; `none` is a fault.
abbrev pub Round : Type 0
Round = Option (World × Cpu × End)

abbrev slot_end : Option (World × Cpu) → Round
slot_end none = none
slot_end (some (w, cpu)) = some (w, cpu, slot_over)

-- The rest of the round, after a process has been chosen.
unfoldable pub serve : Setting → World → Cpu → Round
unfolding run_proc
serve st w cpu =
    if cpu.proc == null
    then some (w, cpu, if w.done then stopped else slot_over)
    else if cpu.time_left == 0
    then slot_end (run_proc st w (record cpu { time_left = st.time_slot }))
    else slot_end (run_proc st w cpu)

-- The first load, after which `done` is not looked at if there is no process.
unfoldable pub serve_first : Setting → World × Cpu → Round
unfolding serve
serve_first st (w, cpu) = if cpu.proc == null then some (w, cpu, slot_over) else serve st w cpu

-- A round of `cpu_routine`
unfoldable pub cpu_round : Setting → World → Cpu → Round
unfolding next_proc check_status serve serve_first
cpu_round st w cpu =
    if cpu.proc == null
    then serve_first st (next_proc w cpu)
    else elim (check_status w cpu) [ none ↦ none | some (w', cpu') ↦ serve st w' cpu' ]

-- What `read_config` has read of a process: its file, which may not be there, and two numbers.
pub record Entry : Type 0 where
  pub file : Option File
  pub start_time : ℕ
  pub prio : ℕ

-- A new process in memory, with its own memory set up, is handed to the scheduler.
unfoldable pub start_proc : Setting → World → ℕ → ℕ → Process → Option World
unfolding init_mm add_proc
start_proc st w at prio p =
    elim (init_mm st.malloc st.node (record { mm = p.mm; machine = w.machine })) [
      | none ↦ none
      | some (_, c) ↦ elim (add_proc w.sched at (u32 prio)) [
        | none ↦ none
        | some sched ↦ some (record w {
          sched = sched;
          procs = update w.procs at (some (record p { prio = u32 prio; mm = c.mm }));
          machine = c.machine;
        })
      ]
    ]

-- `load`, and a block of memory for the process
unfoldable pub load_entry : Setting → World → Entry → Option World
unfolding start_proc load
load_entry st w e = elim (st.malloc_pcb w.procs) [
  | none ↦ none
  | some at ↦ elim (load st.junk w.avail_pid e.file) [
    | none ↦ none
    | some (p, pid) ↦ start_proc st (record w { avail_pid = pid }) at e.prio p
  ]
]

-- A round of `ld_routine` at the time `now`, where `i` is its place in the list of processes.
unfoldable pub ld_round : Setting → List Entry → ℕ → World → ℕ → Option (World × ℕ × End)
unfolding load_entry
ld_round st entries now w i = elim (get_elem? entries i) [
  | none ↦ some (record w { done = true }, i, stopped)
  | some e ↦
      if ltb now e.start_time
      then some (w, i, slot_over)
      else elim (load_entry st w e) [ none ↦ none | some w' ↦ some (w', i + 1, slot_over) ]
]
