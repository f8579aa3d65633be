-- ===== src/Tests/System.antt =====
-- Two CPUs and the loader take turns over two processes.
use os_lamina_atrium.Base.{
  ℕ, zero, suc, ◌+◌, ◌≡◌, ◌≢◌, refl, subst, true, List, [], ◌∷◌, Option, none, some, arith,
  get_elem?, length, count, ◌++◌, ◌<◌, All,
}
use os_lamina_atrium.Queue.{null, fresh, empty, enqueue, dequeue}
use os_lamina_atrium.Sched.{zeroed, init_scheduler, scan, enqueue_at}
use os_lamina_atrium.Memphy.{Memphy}
use os_lamina_atrium.Mm.{Mm}
use os_lamina_atrium.Sched.Conserve.{ready_count}
use os_lamina_atrium.Cpu.{calc, Env, Process}
use os_lamina_atrium.Loader.{File}
use os_lamina_atrium.Os.{Setting, Entry, env}
use os_lamina_atrium.Os.System.{
  at_top, at_first, Thread, System, Turn, cpu_turn, loader_turn, turn, turns,
}
use os_lamina_atrium.Os.System.Account.{live}
use os_lamina_atrium.Os.System.Loading.{IsFresh, IsPrio}
use os_lamina_atrium.Os.System.Preserve.{held}
use os_lamina_atrium.Os.Boot.{Config, Boot, main}
use os_lamina_atrium.Os.System.Places.{Has, Has-alone, turns_exactly_once}
use os_lamina_atrium.Os.System.Found.{turns-is_listed, turns_finished}
use os_lamina_atrium.Os.System.Listed.{running}
use os_lamina_atrium.Syscall.Table.{is_listed}
use os_lamina_atrium.Os.System.Faults.{Runs, FaultsIn, turns_fault}

abbrev no_mm : Mm
no_mm = record {
  pgd = 0;
  used_pgd = [];
  used_p4d = [];
  used_pud = [];
  used_pmd = [];
  used_pt = [];
  access_counter = 0;
  byte_counter = 0;
  mmap = [];
  symrgtbl = [];
  fifo_pgn = [];
}

abbrev no_device : Memphy
no_device = record { storage = []; maxsz = 0; rdmflg = 1; cursor = 0; free_fp_list = [] }

-- A `malloc` of processes that has the blocks at 1 to 64.
abbrev pcb_from : ℕ → ℕ → (ℕ → Option Process) → Option ℕ
pcb_from zero a procs = none
pcb_from (suc n) a procs = elim (procs a) [ none ↦ some a | some _ ↦ pcb_from n (a + 1) procs ]

pcb_from_free :
    (n a b : ℕ) (procs : ℕ → Option Process)
    → a ≢ 0
    → pcb_from n a procs ≡ some b
    → (b ≢ null) × (procs b ≡ none)
pcb_from_free zero a b procs h e = cc (e)
pcb_from_free (suc n) a b procs h e =
    look (procs a) refl (λ rest. pcb_from_free n (a + 1) b procs (omega arith) rest) e
  where
    look :
        (r : Option Process)
        → procs a ≡ r
        → (pcb_from n (a + 1) procs ≡ some b → (b ≢ null) × (procs b ≡ none))
        → (elim r [ none ↦ some a | some _ ↦ pcb_from n (a + 1) procs ]) ≡ some b
        → (b ≢ null) × (procs b ≡ none)
    look none free ih e =
        let same : a ≡ b = cc (e) in subst (λ (x : ℕ). (x ≢ null) × (procs x ≡ none)) same (h, free)
    look (some p) used ih e = ih e

abbrev setting : Setting
setting = record {
  malloc = λ t. none;
  malloc_pcb = pcb_from 64 1;
  node = true;
  time_slot = 2;
  junk = record {
    inst = record { opcode = calc; arg_0 = 0; arg_1 = 0; arg_2 = 0; arg_3 = 0 };
    size = 0;
    opcode = "";
    buf = [];
    prio = 0;
    regs = [];
    mm = no_mm;
  };
  byte = 0;
  freed = λ p. record { pid = 0; prio = 0; code = []; regs = []; pc = 0; mm = no_mm };
}

setting-IsFresh : IsFresh setting.malloc_pcb
setting-IsFresh procs a e = pcb_from_free 64 1 a procs (omega arith) e

-- One instruction that computes, and one that frees a region
abbrev program : File
program = record {
  head = 0 ∷ 2 ∷ [];
  lines = record { opcode = "calc"; args = [] } ∷ record { opcode = "free"; args = 0 ∷ [] } ∷ [];
}

abbrev short_program : File
short_program = record { head = 0 ∷ 1 ∷ []; lines = record { opcode = "calc"; args = [] } ∷ [] }

abbrev entries : List Entry
entries =
    record { file = some program; start_time = 0; prio = 0 }
    ∷ record { file = some short_program; start_time = 1; prio = 3 }
    ∷ []

entries-IsPrio : All IsPrio entries
entries-IsPrio = omega arith

abbrev config : Config
config = record {
  time_slot = 2;
  num_cpus = 2;
  memramsz = 1024;
  memswpsz = 4096 ∷ 0 ∷ 0 ∷ 0 ∷ [];
  processes = entries;
}

abbrev boot : Boot
boot = main [] no_device config

-- The first CPU takes the first process and runs it; the second finds none, and then the second one.
abbrev schedule : List Turn
schedule =
    loader_turn 0
    ∷ cpu_turn 0
    ∷ cpu_turn 1
    ∷ cpu_turn 0
    ∷ cpu_turn 1
    ∷ loader_turn 1
    ∷ cpu_turn 1
    ∷ cpu_turn 0
    ∷ []

abbrev reached : System
reached = elim (turns setting entries boot.system schedule) [ none ↦ boot.system | some sys ↦ sys ]

schedule-reached : turns setting entries boot.system schedule ≡ some reached
unfolding main turns turn enqueue_at init_scheduler zeroed scan empty enqueue dequeue fresh
schedule-reached = refl

-- The second CPU has the second process at hand.
second-Has : Has reached 1 2
unfolding main turns enqueue_at init_scheduler zeroed scan empty enqueue dequeue fresh
second-Has = record {
  thread = record { cpu = record { proc = 2; time_left = 0 }; place = at_first };
  there = refl;
  at_hand = refl;
  not_let_go = λ e. cc (e);
}

Has-alone_example :
    (live (reached.world.procs 2) ≡ 1)
    × (ready_count 2 reached.world.sched.levels ≡ 0)
    × (¬ Has reached 0 2)
Has-alone_example =
    Has-alone setting [] no_device config setting-IsFresh entries-IsPrio schedule reached
      schedule-reached 1 0 2 (omega arith) (omega arith) second-Has

turns_exactly_once_example :
    ready_count 2 reached.world.sched.levels + held 2 reached.cpus ≡ live (reached.world.procs 2)
turns_exactly_once_example =
    turns_exactly_once setting [] no_device config setting-IsFresh entries-IsPrio schedule reached
      schedule-reached 2 (omega arith) (omega arith)

-- There was no memory for the tables of the first process, and its table of regions was not set up.
first_faults : turn setting entries reached (cpu_turn 0) ≡ none
unfolding main turn turns enqueue_at init_scheduler zeroed scan empty enqueue dequeue fresh
first_faults = refl

turns_fault_example :
    (t : Thread) × (get_elem? reached.cpus 0 ≡ some t)
    × Runs t.place
    × FaultsIn setting reached.world t.cpu.proc
turns_fault_example =
    turns_fault setting [] no_device config schedule reached 0 setting-IsFresh entries-IsPrio
      schedule-reached first_faults

-- With no other thread, a CPU that has nothing to do takes two turns for a round.

abbrev second : Process
second = elim (reached.world.procs 2) [ none ↦ setting.freed 2 | some p ↦ p ]

second_there : reached.world.procs 2 ≡ some second
unfolding main turns enqueue_at init_scheduler zeroed scan empty enqueue dequeue fresh
second_there = refl

turns-is_listed_example : is_listed (Env.kernel (env setting reached.world)) second.pid ≡ true
turns-is_listed_example =
    turns-is_listed setting [] no_device config setting-IsFresh entries-IsPrio schedule reached
      schedule-reached 1 2 second (omega arith) (omega arith) second-Has second_there

-- The second CPU has run the one instruction of the second process.
abbrev to_its_end : List Turn
to_its_end = schedule ++ cpu_turn 1 ∷ []

abbrev at_end : System
at_end = elim (turns setting entries boot.system to_its_end) [ none ↦ boot.system | some sys ↦ sys ]

at_end-reached : turns setting entries boot.system to_its_end ≡ some at_end
unfolding main turns turn enqueue_at init_scheduler zeroed scan empty enqueue dequeue fresh
at_end-reached = refl

abbrev finished : Process
finished = elim (at_end.world.procs 2) [ none ↦ setting.freed 2 | some p ↦ p ]

abbrev second_cpu : Thread
second_cpu = record { cpu = record { proc = 2; time_left = 1 }; place = at_top }

second_cpu_there : get_elem? at_end.cpus 1 ≡ some second_cpu
unfolding main turns enqueue_at init_scheduler zeroed scan empty enqueue dequeue fresh
second_cpu_there = refl

finished_there : (at_end.world.procs 2 ≡ some finished) × (finished.pc ≡ length finished.code)
unfolding main turns enqueue_at init_scheduler zeroed scan empty enqueue dequeue fresh
finished_there = (refl, refl)

turns_finished_example :
    (sys : System) × (turn setting entries at_end (cpu_turn 1) ≡ some sys)
    × (sys.world.procs 2 ≡ none)
    × (0 < count 2 (running sys.world))
turns_finished_example =
    turns_finished setting [] no_device config setting-IsFresh entries-IsPrio to_its_end at_end
      at_end-reached 1 second_cpu finished (omega arith) (omega arith) second_cpu_there refl
      finished_there.0 finished_there.1
