-- ===== src/Os/Boot.antt =====
-- src/os.c: `read_config`, and what `main` sets up before it starts the threads. The configuration is
-- the fields of its file between blanks, as `fscanf` takes them; `none` is `exit(1)` or a fault.
pub mod Print
pub mod Start
use Prim.Native.String.{String, len}
use os_lamina_atrium.Base.{
  ℕ, zero, suc, ◌^◌, false, List, [], ◌∷◌, Option, none, some, ltb, if◌then◌else◌, map, get_or,
  replicate,
}
use os_lamina_atrium.Queue.{null}
use os_lamina_atrium.Words.{int_to_addr}
use os_lamina_atrium.Memphy.{Memphy, init_memphy}
use os_lamina_atrium.Sched.{zeroed, init_scheduler}
use os_lamina_atrium.Loader.{File}
use os_lamina_atrium.Timer.{Timer, initial, attach_event, start_timer}
use os_lamina_atrium.Os.{Entry}
use os_lamina_atrium.Os.System.{at_top, Thread, System}

-- A field of the file, and the number that `%d` and `%lu` read of it, if it is one.
pub record Token : Type 0 where
  pub spelling : String
  pub value : Option ℕ

-- What `read_config` sets.
pub record Config : Type 0 where
  pub time_slot : ℕ
  pub num_cpus : ℕ
  pub memramsz : ℕ
  pub memswpsz : List ℕ
  pub processes : List Entry

abbrev pub paging_max_mmswp : ℕ
paging_max_mmswp = 4

-- How long a name may be: the block of 100 bytes holds `input/proc/` and the end of the text too.
abbrev pub max_name : ℕ
max_name = 88

-- A conversion to a number: what does not match stays where it is, and the variable as it was.
unfoldable pub scan_number : ℕ → List Token → ℕ × List Token
scan_number old [] = (old, [])
scan_number old (t ∷ ts) = elim t.value [ none ↦ (old, t ∷ ts) | some n ↦ (n, ts) ]

unfoldable pub scan_numbers : List ℕ → List Token → List ℕ × List Token
unfolding scan_number
scan_numbers [] ts = ([], ts)
scan_numbers (old ∷ olds) ts =
    let (n, rest) = scan_number old ts in let (ns, last) = scan_numbers olds rest in (n ∷ ns, last)

-- What a name stands for: the process's file under `input/proc/`, if it can be opened.
abbrev pub Files : Type 0
Files = String → Option File

-- The name and the priority of a process, after its start time
unfoldable pub read_path : Files → Entry → List Token → Option (Entry × List Token)
unfolding scan_number
read_path files e [] = some (record e { file = files "" }, [])
read_path files e (t ∷ ts) =
    if ltb max_name (len t.spelling)
    then none
    else let (prio, rest) = scan_number e.prio ts in
      some (record e { file = files t.spelling; prio = prio }, rest)

-- One `fscanf(file, "%lu %s %lu", …)` into memory that holds `junk`
unfoldable pub read_process : Files → Entry → List Token → Option (Entry × List Token)
unfolding read_path
read_process files junk [] = some (record junk { file = files "" }, [])
read_process files junk (t ∷ ts) = elim t.value [
  | none ↦ some (record junk { file = files "" }, t ∷ ts)
  | some n ↦ read_path files (record junk { start_time = n }) ts
]

unfoldable pub read_processes : Files → Entry → ℕ → List Token → Option (List Entry)
unfolding read_process
read_processes files junk zero ts = some []
read_processes files junk (suc n) ts = elim (read_process files junk ts) [
  | none ↦ none
  | some (e, rest) ↦ elim (read_processes files junk n rest) [
    | none ↦ none
    | some es ↦ some (e ∷ es)
  ]
]

-- How often a loop runs that counts to an `int`
abbrev pub rounds : ℕ → ℕ
rounds n = if ltb n (2 ^ 31) then n else 0

unfoldable pub read_config : Files → Entry → Option (List Token) → Option Config
unfolding scan_number scan_numbers read_processes
read_config files junk none = none
read_config files junk (some ts) =
    let (time_slot, ts_1) = scan_number 0 ts in
    let (num_cpus, ts_2) = scan_number 0 ts_1 in
    let (num_processes, ts_3) = scan_number 0 ts_2 in
    let (memramsz, ts_4) = scan_number 0 ts_3 in
    let (memswpsz, ts_5) = scan_numbers (replicate paging_max_mmswp 0) ts_4 in
    elim (read_processes files junk (rounds num_processes) ts_5) [
      | none ↦ none
      | some processes ↦ some (record {
        time_slot = time_slot;
        num_cpus = num_cpus;
        memramsz = memramsz;
        memswpsz = memswpsz;
        processes = processes;
      })
    ]

-- The loop over the CPUs; a call that gives NULL changes nothing.
unfoldable pub attach_events : ℕ → Timer → Timer
unfolding attach_event
attach_events zero t = t
attach_events (suc n) t = attach_events n (elim (attach_event t) [ none ↦ t | some t' ↦ t' ])

-- A CPU's thread, before its loop
abbrev pub idle : Thread
idle = record { cpu = record { proc = null; time_left = 0 }; place = at_top }

-- What `main` has set up when it starts the threads: the clock, all swap devices, and the rest.
pub record Boot : Type 0 where
  pub timer : Timer
  pub mswp : List Memphy
  pub system : System

-- The sizes of the configuration are patterns of `int`s. The devices are local variables of `main`:
-- before `init_memphy` they hold `mp`.
unfoldable pub main : List ℕ → Memphy → Config → Boot
unfolding attach_events attach_event start_timer init_memphy init_scheduler zeroed
main junk mp config =
    let mswp = map (λ size. init_memphy junk mp (int_to_addr size) 1) config.memswpsz in
    record {
      timer = start_timer (attach_events 1 (attach_events (rounds config.num_cpus) initial));
      mswp = mswp;
      system = record {
        world = record {
          sched = init_scheduler zeroed;
          procs = λ a. none;
          machine = record {
            tables = λ a. none;
            total_accesses = 0;
            total_storage_bytes = 0;
            mram = init_memphy junk mp (int_to_addr config.memramsz) 1;
            active_mswp = get_or mswp 0 mp;
          };
          avail_pid = 1;
          done = false;
        };
        cpus = replicate (rounds config.num_cpus) idle;
        loaded = 0;
      };
    }
