-- ===== src/Loader/Text.antt =====
-- A program, written out as its file has it, is loaded again.
use Prim.Native.String.{String}
use os_lamina_atrium.Base.{ℕ, ◌+◌, ◌≡◌, refl, List, [], ◌∷◌, map, some, false, ◌++◌, length}
use os_lamina_atrium.Words.{u32}
use os_lamina_atrium.Cpu.{Opcode, calc, alloc, free, read, write, syscall, Inst}
use os_lamina_atrium.Loader.{
  get_opcode, Line, leaves_numbers, buffered, read_args, load_text, Junk, load,
}

abbrev word : Opcode → String
word calc = "calc"
word alloc = "alloc"
word free = "free"
word read = "read"
word write = "write"
word syscall = "syscall"

-- The numbers after the word
abbrev numbers : Opcode → Inst → List ℕ
numbers calc ins = []
numbers alloc ins = ins.arg_0 ∷ ins.arg_1 ∷ []
numbers free ins = ins.arg_0 ∷ []
numbers read ins = ins.arg_0 ∷ ins.arg_1 ∷ ins.arg_2 ∷ []
numbers write ins = ins.arg_0 ∷ ins.arg_1 ∷ ins.arg_2 ∷ []
numbers syscall ins = ins.arg_0 ∷ ins.arg_1 ∷ ins.arg_2 ∷ ins.arg_3 ∷ []

-- The line of an instruction
abbrev pub line_of : Inst → Line
line_of ins = record { opcode = word ins.opcode; args = numbers ins.opcode ins }

-- Two instructions with the same effect: the arguments that the opcode has are the same.
abbrev pub SameInst : Inst → Inst → Type 0
SameInst a b = (a.opcode ≡ b.opcode) × (numbers b.opcode a ≡ numbers b.opcode b)

-- Two programs, instruction by instruction
abbrev pub SameText : List Inst → List Inst → Type 0
SameText [] [] = Unit
SameText [] (b ∷ bs) = ⊥
SameText (a ∷ as') [] = ⊥
SameText (a ∷ as') (b ∷ bs) = SameInst a b × SameText as' bs

get_opcode-word : (op : Opcode) → get_opcode (word op) ≡ some op
unfolding get_opcode
get_opcode-word calc = refl
get_opcode-word alloc = refl
get_opcode-word free = refl
get_opcode-word read = refl
get_opcode-word write = refl
get_opcode-word syscall = refl

read_args-numbers :
    (op : Opcode) (ins junk : Inst)
    → (Inst.opcode (read_args op (numbers op ins) junk) ≡ op)
      × (numbers op (read_args op (numbers op ins) junk) ≡ numbers op ins)
unfolding read_args
read_args-numbers calc ins junk = (refl, refl)
read_args-numbers alloc ins junk = (refl, refl)
read_args-numbers free ins junk = (refl, refl)
read_args-numbers read ins junk = (refl, refl)
read_args-numbers write ins junk = (refl, refl)
read_args-numbers syscall ins junk = (refl, refl)

fits : (op : Opcode) (ins : Inst) → leaves_numbers op (numbers op ins) ≡ false
fits calc ins = refl
fits alloc ins = refl
fits free ins = refl
fits read ins = refl
fits write ins = refl
fits syscall ins = refl

load_text-line_of :
    (junk : Inst) (opcode : String) (buf : List ℕ) (code : List Inst) (more : List Line)
    → (text : List Inst) × (load_text junk opcode buf (length code) (map line_of code ++ more)
        ≡ some text)
      × SameText text code
unfolding load_text
load_text-line_of junk opcode buf [] more = ([], refl, tt)
load_text-line_of junk opcode buf (ins ∷ code) more =
    let args = numbers ins.opcode ins in
    let (text, e, same) =
      load_text-line_of junk (word ins.opcode) (buffered ins.opcode args buf) code more in
    (
      read_args ins.opcode args junk ∷ text,
      rw (load_text, get_opcode-word ins.opcode, fits ins.opcode ins, e) refl,
      (read_args-numbers ins.opcode ins junk, same),
    )

-- A file that starts with a priority and the number of instructions of a program, and goes on with the
-- program written out, one line for an instruction, and whatever lines after it: loading it gives a
-- process at its start with the next number, whose program is the same, whatever its memory
-- held before.
pub load-line_of :
    (junk : Junk) (pid prio : ℕ) (code : List Inst) (more : List Line)
    → (text : List Inst) × (load junk pid
          (some (record { head = prio ∷ length code ∷ []; lines = map line_of code ++ more }))
        ≡ some (
          record {
            pid = pid;
            prio = junk.prio;
            code = text;
            regs = junk.regs;
            pc = 0;
            mm = junk.mm;
          },
          u32 (pid + 1),
        ))
      × SameText text code
unfolding load
load-line_of junk pid prio code more =
    let (text, e, same) = load_text-line_of junk.inst junk.opcode junk.buf code more in
    (text, rw (load, e) refl, same)
