-- ===== src/Os/Boot/Print.antt =====
-- The round trip of a configuration file through `read_config` of src/os.c.
use Prim.Native.String.{String, len}
use os_lamina_atrium.Base.{
  ℕ, ◌^◌, ◌≤◌, ◌<◌, ◌≡◌, refl, sym, ap, ◌∙◌, List, [], ◌∷◌, ◌++◌, Option, none, some, map,
  replicate, length, arith, All,
}
use os_lamina_atrium.Os.{Entry}
use os_lamina_atrium.Os.Boot.{
  Token, Config, Files, paging_max_mmswp, max_name, scan_number, scan_numbers, read_path,
  read_process, read_processes, read_config, rounds,
}

-- A process as the file names it
pub record Program : Type 0 where
  pub name : String
  pub start_time : ℕ
  pub prio : ℕ

-- What a file is to say
pub record Plan : Type 0 where
  pub time_slot : ℕ
  pub num_cpus : ℕ
  pub memramsz : ℕ
  pub memswpsz : List ℕ
  pub programs : List Program

-- `spell` writes a number, and `value_of` is what a conversion to a number makes of a name.
module _ (spell : ℕ → String) (value_of : String → Option ℕ) where
  abbrev pub number : ℕ → Token
  number n = record { spelling = spell n; value = some n }

  abbrev pub print_numbers : List ℕ → List Token
  print_numbers [] = []
  print_numbers (n ∷ ns) = number n ∷ print_numbers ns

  abbrev pub print_program : Program → List Token → List Token
  print_program p rest =
      number p.start_time
      ∷ record { spelling = p.name; value = value_of p.name }
      ∷ number p.prio
      ∷ rest

  abbrev pub print_programs : List Program → List Token
  print_programs [] = []
  print_programs (p ∷ ps) = print_program p (print_programs ps)

  abbrev pub print : Plan → List Token
  print plan =
      number plan.time_slot
      ∷ number plan.num_cpus
      ∷ number (length plan.programs)
      ∷ number plan.memramsz
      ∷ (print_numbers plan.memswpsz ++ print_programs plan.programs)

abbrev pub entry_of : Files → Program → Entry
entry_of files p = record { file = files p.name; start_time = p.start_time; prio = p.prio }

-- A name that the block for the path can hold.
abbrev pub IsShort : Program → Type 0
IsShort p = len p.name ≤ max_name

scan_numbers-print :
    (spell : ℕ → String) (value_of : String → Option ℕ) (olds ns : List ℕ) (rest : List Token)
    → length olds ≡ length ns
    → scan_numbers olds (print_numbers spell value_of ns ++ rest) ≡ (ns, rest)
unfolding scan_numbers scan_number
scan_numbers-print spell value_of [] [] rest e = refl
scan_numbers-print spell value_of [] (n ∷ ns) rest e = absurd (omega arith)
scan_numbers-print spell value_of (o ∷ olds) [] rest e = absurd (omega arith)
scan_numbers-print spell value_of (o ∷ olds) (n ∷ ns) rest e =
    rw (scan_numbers-print spell value_of olds ns rest (omega arith)) refl

read_process-print :
    (spell : ℕ → String) (value_of : String → Option ℕ) (files : Files) (junk : Entry) (p : Program)
    (rest : List Token)
    → IsShort p
    → read_process files junk (print_program spell value_of p rest) ≡ some (entry_of files p, rest)
unfolding read_process read_path scan_number
read_process-print spell value_of files junk p rest h = ground (arith, h)

read_processes-print :
    (spell : ℕ → String) (value_of : String → Option ℕ) (files : Files) (junk : Entry)
    (ps : List Program)
    → All IsShort ps
    → read_processes files junk (length ps) (print_programs spell value_of ps)
      ≡ some (map (entry_of files) ps)
unfolding read_processes
read_processes-print spell value_of files junk [] h = refl
read_processes-print spell value_of files junk (p ∷ ps) (h, hs) =
    rw
      (
        read_processes,
        read_process-print spell value_of files junk p (print_programs spell value_of ps) h,
        read_processes-print spell value_of files junk ps hs,
      )
      refl

-- A file that says a plan with a number for each swap device, in any spelling of the numbers,
-- whatever number a name may be read as, where each name fits the block for its path, is read back
-- as the plan, each process with what is under its name.
pub read_config-print :
    (spell : ℕ → String) (value_of : String → Option ℕ) (files : Files) (junk : Entry) (plan : Plan)
    → length plan.memswpsz ≡ paging_max_mmswp
    → length plan.programs < 2 ^ 31
    → All IsShort plan.programs
    → read_config files junk (some (print spell value_of plan))
      ≡ some (record {
        time_slot = plan.time_slot;
        num_cpus = plan.num_cpus;
        memramsz = plan.memramsz;
        memswpsz = plan.memswpsz;
        processes = map (entry_of files) plan.programs;
      })
unfolding read_config scan_number
read_config-print spell value_of files junk plan swaps small h =
    let programs = print_programs spell value_of plan.programs in
    let finish : List ℕ × List Token → Option Config = λ r.
      elim (read_processes files junk (rounds (length plan.programs)) r.1) [
        | none ↦ none
        | some processes ↦ some (record {
          time_slot = plan.time_slot;
          num_cpus = plan.num_cpus;
          memramsz = plan.memramsz;
          memswpsz = r.0;
          processes = processes;
        })
      ] in
    let counted : rounds (length plan.programs) ≡ length plan.programs = ground arith in
    let found : read_processes files junk (rounds (length plan.programs)) programs
        ≡ some (map (entry_of files) plan.programs) =
      ap (λ (n : ℕ). read_processes files junk n programs) counted
      ∙ read_processes-print spell value_of files junk plan.programs h in
    ap finish (
      scan_numbers-print spell value_of (replicate paging_max_mmswp 0) plan.memswpsz programs
        (sym swaps))
    ∙ rw found refl
