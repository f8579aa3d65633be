-- ===== src/Tests/Kernel.antt =====
-- A clock with two devices, a CPU with a process of two instructions, and a program.
use os_lamina_atrium.Base.{
  false, ◌+◌, ◌≡◌, refl, true, List, [], ◌∷◌, ◌++◌, map, none, some, ◌==◌, if◌then◌else◌, arith,
}
use os_lamina_atrium.Words.{u64, u32}
use os_lamina_atrium.Queue.{null, fresh, empty}
use os_lamina_atrium.Memphy.{Memphy}
use os_lamina_atrium.Mm.{Mm, Machine}
use os_lamina_atrium.Sched.{Sched}
use os_lamina_atrium.Cpu.{Inst, calc, alloc, syscall, Process}
use os_lamina_atrium.Loader.{Line, Junk, load}
use os_lamina_atrium.Loader.Text.{line_of, SameText, load-line_of}
use os_lamina_atrium.Os.{World, Setting, Cpu, slot_over, cpu_round}
use os_lamina_atrium.Os.Idle.{cpu_rounds, NoneReady, cpu_idle_forever}
use os_lamina_atrium.Os.Quantum.{Goes, Busy, cpu_rounds-Goes}
use os_lamina_atrium.Os.Slot.{EndsInSlot, cpu_rounds-EndsInSlot}
use os_lamina_atrium.Timer.{
  Timer, new_device, initial, attach_event, start_timer, tick, tick_at, look, sleeping, asleep,
  detached, at_top, next_slot, next_slot_at, signal_event,
}
use os_lamina_atrium.Timer.Steps.{attaches, starts, ticks, continues, Reach, start, later}
use os_lamina_atrium.Timer.Progress.{run_clock, let_go, next_time}
use os_lamina_atrium.Timer.Safety.{IsSafe, Reach-IsSafe}

-- The timer with so many devices attached
abbrev one_device : Timer
one_device = record initial { dev_list = new_device ∷ [] }

abbrev two_devices : Timer
two_devices = record initial { dev_list = new_device ∷ new_device ∷ [] }

two_devices-Reach : Reach two_devices
unfolding attach_event
two_devices-Reach = later (later start (attaches one_device refl)) (attaches two_devices refl)

-- The clock has gone to sleep at the second device, the first being asleep itself.
abbrev at_second : Timer
at_second = next_slot (tick (tick (next_slot (tick (start_timer two_devices)) 0))) 0

at_second-Reach : Reach at_second
at_second-Reach =
    later
      (later
        (later (later (later (later two_devices-Reach (starts refl)) ticks) (continues 0)) ticks)
        ticks)
      (continues 0)

at_second_sleeps : at_second.clock ≡ sleeping 1 0
unfolding tick tick_at look next_slot next_slot_at signal_event start_timer
at_second_sleeps = refl

Reach-IsSafe_example : IsSafe at_second
Reach-IsSafe_example = Reach-IsSafe at_second at_second-Reach

abbrev program : List Inst
program =
    record { opcode = calc; arg_0 = 0; arg_1 = 0; arg_2 = 0; arg_3 = 0 }
    ∷ record { opcode = alloc; arg_0 = 300; arg_1 = 1; arg_2 = 0; arg_3 = 0 }
    ∷ []

abbrev no_mm : Mm
no_mm = record {
  pgd = 0;
  used_pgd = [];
  used_p4d = [];
  used_pud = [];
  used_pmd = [];
  used_pt = [];
  access_counter = 0;
  byte_counter = 0;
  mmap = [];
  symrgtbl = [];
  fifo_pgn = [];
}

abbrev junk : Junk
junk = record {
  inst = record { opcode = syscall; arg_0 = 5; arg_1 = 5; arg_2 = 5; arg_3 = 5 };
  size = 0;
  opcode = "";
  buf = [];
  prio = 0;
  regs = [];
  mm = no_mm;
}

-- A line past the count
abbrev extra : List Line
extra = record { opcode = "jump"; args = [] } ∷ []

load-line_of_example :
    (text : List Inst) × (load junk 1
        (some (record { head = 7 ∷ 2 ∷ []; lines = map line_of program ++ extra }))
      ≡ some
          (record { pid = 1; prio = 0; code = text; regs = []; pc = 0; mm = no_mm }, u32 (1 + 1)))
    × SameText text program
load-line_of_example = load-line_of junk 1 7 program extra

abbrev proc : Process
proc = record { pid = 1; prio = 0; code = program; regs = []; pc = 0; mm = no_mm }

abbrev no_device : Memphy
no_device = record { storage = []; maxsz = 0; rdmflg = 1; cursor = 0; free_fp_list = [] }

abbrev machine : Machine
machine = record {
  tables = λ a. none;
  total_accesses = 0;
  total_storage_bytes = 0;
  mram = no_device;
  active_mswp = no_device;
}

abbrev idle_sched : Sched
idle_sched = record {
  levels = record { queue = fresh; slot = 140 } ∷ record { queue = fresh; slot = 139 } ∷ [];
  ready_queue = fresh;
  run_queue = fresh;
  running_list = fresh;
  linked = true;
}

-- One process is in memory; the loader has finished.
abbrev world : World
world = record {
  sched = idle_sched;
  procs = λ p. if p == 7 then some proc else none;
  machine = machine;
  avail_pid = 2;
  done = true;
}

abbrev setting : Setting
setting = record {
  malloc = λ t. none;
  malloc_pcb = λ procs. some 8;
  node = true;
  time_slot = 4;
  junk = junk;
  byte = 0;
  freed = λ p. proc;
}

none_ready : NoneReady idle_sched.levels
unfolding empty fresh
none_ready = (refl, (refl, tt))

abbrev idle_cpu : Cpu
idle_cpu = record { proc = null; time_left = 0 }

cpu_idle_forever_example : cpu_rounds 9 setting world idle_cpu ≡ some (world, idle_cpu, slot_over)
cpu_idle_forever_example = cpu_idle_forever setting 9 world idle_cpu refl none_ready

abbrev busy_cpu : Cpu
busy_cpu = record { proc = 7; time_left = 3 }

busy : Busy world busy_cpu proc 2
busy = record {
  at_hand = omega arith;
  in_memory = refl;
  time_left = omega arith;
  code_left = omega arith;
  time_int = omega arith;
  code_int = omega arith;
}

cpu_rounds-Goes_example : Goes world busy_cpu proc 2 (cpu_rounds 2 setting world busy_cpu)
cpu_rounds-Goes_example = cpu_rounds-Goes setting 2 world busy_cpu proc busy

cpu_rounds-EndsInSlot_example : EndsInSlot setting (cpu_rounds 5 setting world busy_cpu)
cpu_rounds-EndsInSlot_example =
    cpu_rounds-EndsInSlot setting 5 world busy_cpu (omega arith) (omega arith)

-- The second instruction asks for memory that the process has no area for, which is a fault; the
-- first one runs.
first_runs :
    (w : World) × (cpu : Cpu) × (cpu_round setting world busy_cpu ≡ some (w, cpu, slot_over))
    × (cpu.time_left ≡ 2)
unfolding cpu_round
first_runs = (_, _, refl, refl)

-- One device is done and asleep, the other has gone; the clock is at the top of its loop.
abbrev one_left : Timer
one_left = record {
  dev_list =
      record { done = true; fsh = false; place = asleep; slots = 3 }
      ∷ record { done = false; fsh = true; place = detached; slots = 2 }
      ∷ [];
  time = 3;
  started = true;
  stop = false;
  clock = at_top;
}

next_time_example : run_clock 7 one_left ≡ record one_left {
  dev_list = map let_go one_left.dev_list;
  time = u64 (3 + 1);
  clock = at_top;
}
next_time_example = next_time one_left refl refl (refl, (refl, tt)) (omega arith)
