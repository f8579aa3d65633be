-- ===== src/Tests/Boot.antt =====
-- A configuration of two CPUs and two processes.
use Prim.Native.String.{String}
use os_lamina_atrium.Base.{
  ℕ, ◌+◌, ◌/◌, ◌≡◌, refl, [], ◌∷◌, Option, none, some, ltb, if◌then◌else◌, count, map, replicate,
  arith, All,
}
use os_lamina_atrium.Memphy.{Memphy, frame_size}
use os_lamina_atrium.Timer.{at_top, new_device}
use os_lamina_atrium.Timer.Steps.{Reach}
use os_lamina_atrium.Os.{Entry}
use os_lamina_atrium.Os.Boot.{Config, Files, rounds, read_config, main}
use os_lamina_atrium.Os.Boot.Print.{Plan, print, entry_of, IsShort, read_config-print}
use os_lamina_atrium.Os.Boot.Start.{main_lem}

abbrev files : Files
files name = some (record { head = 5 ∷ 1 ∷ []; lines = record { opcode = "calc"; args = [] } ∷ [] })

abbrev junk : Entry
junk = record { file = none; start_time = 9; prio = 9 }

abbrev plan : Plan
plan = record {
  time_slot = 2;
  num_cpus = 2;
  memramsz = 1048576;
  memswpsz = 16777216 ∷ 0 ∷ 0 ∷ 0 ∷ [];
  programs =
      record { name = "p1s"; start_time = 0; prio = 15 }
      ∷ record { name = "4"; start_time = 7; prio = 0 }
      ∷ [];
}

-- Some spelling of the numbers, and a name that reads as a number
abbrev spell : ℕ → String
spell n = if ltb n 10 then "a digit" else "digits"

abbrev value_of : String → Option ℕ
value_of name = some 4

names-IsShort : All IsShort plan.programs
names-IsShort = omega arith

abbrev config : Config
config = record {
  time_slot = plan.time_slot;
  num_cpus = plan.num_cpus;
  memramsz = plan.memramsz;
  memswpsz = plan.memswpsz;
  processes = map (entry_of files) plan.programs;
}

read_config-print_example : read_config files junk (some (print spell value_of plan)) ≡ some config
read_config-print_example =
    read_config-print spell value_of files junk plan refl (omega arith) names-IsShort

-- A file that ends after the first process: the second one has no name, and what its memory held.
cut_short :
    read_config files junk (
      some (
        map
          (λ (n : ℕ). record { spelling = "a number"; value = some n })
          (2 ∷ 1 ∷ 2 ∷ 512 ∷ 256 ∷ 0 ∷ 0 ∷ 0 ∷ 3 ∷ 4 ∷ 5 ∷ [])))
    ≡ some (record {
      time_slot = 2;
      num_cpus = 1;
      memramsz = 512;
      memswpsz = 256 ∷ 0 ∷ 0 ∷ 0 ∷ [];
      processes =
          record { file = files "a number"; start_time = 3; prio = 5 }
          ∷ record { file = files ""; start_time = 9; prio = 9 }
          ∷ [];
    })
unfolding read_config
cut_short = refl

abbrev device : Memphy
device = record { storage = []; maxsz = 0; rdmflg = 1; cursor = 0; free_fp_list = [] }

main_lem_example :
    let boot = main [] device config in
    Reach boot.timer
    × (boot.timer.clock ≡ at_top)
    × (boot.timer.time ≡ 0)
    × (boot.timer.dev_list ≡ replicate (rounds 2 + 1) new_device)
    × (count 7 boot.system.world.machine.mram.free_fp_list
        ≡ (if ltb 7 (1048576 / frame_size) then 1 else 0))
main_lem_example = main_lem [] device config 7 (omega arith) (omega arith)
