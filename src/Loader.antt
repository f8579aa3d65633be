-- ===== src/Loader.antt =====
-- src/loader.c: a process from its description. The file is what `fscanf` and `fgets` read of it:
-- numbers at its start and, for each instruction, a word and the numbers after it on its line. A
-- word has at most 9 characters, a line at most 199, and there is memory for the code. `none` is
-- `exit(1)`.
pub mod Text
use Prim.Native.String.{String}
use text.Mathlib.Text.{◌==◌ as str_eq}
use os_lamina_atrium.Base.{
  ℕ, zero, suc, ◌+◌, Bool, false, not, ◌&&◌, ◌==◌, ltb, length, List, [], ◌∷◌, Option, none, some,
  if◌then◌else◌, get_or,
}
use os_lamina_atrium.Words.{u32}
use os_lamina_atrium.Mm.{Mm}
use os_lamina_atrium.Cpu.{Opcode, calc, alloc, free, read, write, syscall, Inst, Process}

unfoldable pub get_opcode : String → Option Opcode
get_opcode opt =
    if str_eq opt "calc"
    then some calc
    else if str_eq opt "alloc"
    then some alloc
    else if str_eq opt "free"
    then some free
    else if str_eq opt "read"
    then some read
    else if str_eq opt "write"
    then some write
    else if str_eq opt "syscall"
    then some syscall
    else none

-- One line: its word, which is no number, and its numbers.
pub record Line : Type 0 where
  pub opcode : String
  pub args : List ℕ

-- The arguments that the `switch` reads. A number that is not there leaves what `junk`, the memory
-- of the instruction, held.
unfoldable pub read_args : Opcode → List ℕ → Inst → Inst
read_args calc args junk = record junk { opcode = calc }
read_args alloc args junk = record junk {
  opcode = alloc;
  arg_0 = get_or args 0 junk.arg_0;
  arg_1 = get_or args 1 junk.arg_1;
}
read_args free args junk = record junk { opcode = free; arg_0 = get_or args 0 junk.arg_0 }
read_args read args junk = record junk {
  opcode = read;
  arg_0 = get_or args 0 junk.arg_0;
  arg_1 = get_or args 1 junk.arg_1;
  arg_2 = get_or args 2 junk.arg_2;
}
read_args write args junk = record junk {
  opcode = write;
  arg_0 = get_or args 0 junk.arg_0;
  arg_1 = get_or args 1 junk.arg_1;
  arg_2 = get_or args 2 junk.arg_2;
}
read_args syscall args junk = record {
  opcode = syscall;
  arg_0 = get_or args 0 junk.arg_0;
  arg_1 = get_or args 1 junk.arg_1;
  arg_2 = get_or args 2 junk.arg_2;
  arg_3 = get_or args 3 junk.arg_3;
}

-- How many numbers the `fscanf` of an opcode takes
abbrev pub arity : Opcode → ℕ
arity calc = 0
arity alloc = 2
arity free = 1
arity read = 3
arity write = 3
arity syscall = 4

-- Whether the line has numbers left. Those after a system call are gone with the line, which `fgets`
-- takes; others are what the next round reads as its word.
abbrev pub leaves_numbers : Opcode → List ℕ → Bool
leaves_numbers syscall args = false
leaves_numbers op args = ltb (arity op) (length args)

-- What `buf` holds after the round, and what the round reads at the end of the file, from `buf`.
abbrev pub buffered : Opcode → List ℕ → List ℕ → List ℕ
buffered syscall args buf = args
buffered op args buf = buf

abbrev at_end : Opcode → List ℕ → List ℕ
at_end syscall buf = buf
at_end op buf = []

-- The loop of `load`, with `rounds` rounds left, where `opcode` and `buf` hold what the last ones left
-- there. At the end of the file nothing is read, and they are used again.
unfoldable pub load_text : Inst → String → List ℕ → ℕ → List Line → Option (List Inst)
unfolding get_opcode read_args
load_text junk opcode buf zero lines = some []
load_text junk opcode buf (suc rounds) [] = elim (get_opcode opcode) [
  | none ↦ none
  | some op ↦ elim (load_text junk opcode buf rounds []) [
    | none ↦ none
    | some text ↦ some (read_args op (at_end op buf) junk ∷ text)
  ]
]
load_text junk opcode buf (suc rounds) (line ∷ lines) = elim (get_opcode line.opcode) [
  | none ↦ none
  | some op ↦
      let rest = load_text junk line.opcode (buffered op line.args buf) rounds lines in
      if leaves_numbers op line.args && not (rounds == 0)
      then none
      else elim rest [ none ↦ none | some text ↦ some (read_args op line.args junk ∷ text) ]
]

-- A file: the numbers at its start, for the priority and the count of instructions, and the lines.
pub record File : Type 0 where
  pub head : List ℕ
  pub lines : List Line

-- What is set later, or holds what its memory held: an instruction, the count, `opcode` and `buf`, the
-- priority on execution, the registers and the memory of the process.
pub record Junk : Type 0 where
  pub inst : Inst
  pub size : ℕ
  pub opcode : String
  pub buf : List ℕ
  pub prio : ℕ
  pub regs : List ℕ
  pub mm : Mm

-- `load` of a file, which is `none` if it cannot be opened: the process, and the next `avail_pid`.
-- With MLQ_SCHED nothing reads `priority`, the first number of the file: a process is without it.
unfoldable pub load : Junk → ℕ → Option File → Option (Process × ℕ)
unfolding load_text
load junk avail_pid none = none
load junk avail_pid (some file) =
    elim (load_text junk.inst junk.opcode junk.buf (get_or file.head 1 junk.size) file.lines) [
      | none ↦ none
      | some text ↦ some (
        record {
          pid = avail_pid;
          prio = junk.prio;
          code = text;
          regs = junk.regs;
          pc = 0;
          mm = junk.mm;
        },
        u32 (avail_pid + 1),
      )
    ]
