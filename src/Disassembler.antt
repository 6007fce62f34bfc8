-- ===== src/Disassembler.antt =====
-- The listing of a chunk (src/disassembler/disassembler.cc). What is printed is data: a `Line` has the
-- arguments of the `printf`s of one instruction, an opcode there stands for the text of its name, and
-- a value for what `printValue` prints. `none` says that the code would read outside an array.
pub mod Assemble
pub mod Listed
pub mod Whole
pub mod Executed
use yscript.Prelude.{
  ℕ, zero, suc, ◌+◌, ◌-◌, ◌*◌, List, [], ◌∷◌, Bool, not, ◌&&◌, Option, none, some, ◌==◌, ltb, leb,
  if◌then◌else◌, get_elem?,
}
use yscript.Prelude.Bytes.{Bytes}
use yscript.Value.{Value}
use yscript.Chunk.{Chunk}
use yscript.Table.{◌>>=◌}
use yscript.OpCode.{OpCode, decode}
use yscript.Memory.{Obj, ObjFunction}
use yscript.Interp.{as_function}

-- An `int`, of which only jump targets can be below 0.
pub data ℤ : Type 0 where
  pos negsuc : ℕ → ℤ

-- The argument `sign` of `jumpInstruction`: 1 or -1.
pub data Sign : Type 0 where
  plus minus : Sign

-- `place + sign * jump`
abbrev pub target : Sign → (place jump : ℕ) → ℤ
target plus place jump = pos (place + jump)
target minus place jump = if leb jump place then pos (place - jump) else negsuc (jump - place - 1)

-- A line below `OP_CLOSURE`.
pub record Captured : Type 0 where
  pub place : ℕ
  pub is_local : Bool
  pub index : ℕ

pub data Text : Type 0 where
  simple : OpCode → Text
  with_constant : OpCode → (constant : ℕ) → Value → Text
  with_arguments : OpCode → (arg_count constant : ℕ) → Value → Text
  with_byte : OpCode → (slot : ℕ) → Text
  with_jump : OpCode → (from : ℕ) → (to : ℤ) → Text
  with_upvalues : OpCode → (constant : ℕ) → Value → List Captured → Text
  unknown : (instruction : ℕ) → Text

-- `line` is `none` for the bar that is printed in place of the line number of the byte before.
pub record Line : Type 0 where
  pub offset : ℕ
  pub line : Option ℕ
  pub text : Text

unfoldable pub constant_instruction : OpCode → Chunk → ℕ → Option (Text × ℕ)
constant_instruction name chunk offset = do
  constant ← get_elem? chunk.code (offset + 1)
  value ← get_elem? chunk.constants.values constant
  some (with_constant name constant value, offset + 2)

unfoldable pub invoke_instruction : OpCode → Chunk → ℕ → Option (Text × ℕ)
invoke_instruction name chunk offset = do
  constant ← get_elem? chunk.code (offset + 1)
  arg_count ← get_elem? chunk.code (offset + 2)
  value ← get_elem? chunk.constants.values constant
  some (with_arguments name arg_count constant value, offset + 3)

unfoldable pub simple_instruction : OpCode → ℕ → Option (Text × ℕ)
simple_instruction name offset = some (simple name, offset + 1)

unfoldable pub byte_instruction : OpCode → Chunk → ℕ → Option (Text × ℕ)
byte_instruction name chunk offset = do
  slot ← get_elem? chunk.code (offset + 1)
  some (with_byte name slot, offset + 2)

unfoldable pub jump_instruction : OpCode → Sign → Chunk → ℕ → Option (Text × ℕ)
jump_instruction name sign chunk offset = do
  high ← get_elem? chunk.code (offset + 1)
  low ← get_elem? chunk.code (offset + 2)
  let jump = high * 256 + low
  some (with_jump name offset (target sign (offset + 3) jump), offset + 3)

-- The loop of `OP_CLOSURE` over the upvalues, each of two bytes.
unfoldable pub list_upvalues : ℕ → Chunk → ℕ → Option (List Captured × ℕ)
list_upvalues zero chunk offset = some ([], offset)
list_upvalues (suc n) chunk offset =
    let rest = list_upvalues n chunk (offset + 2) in
    do
      is_local ← get_elem? chunk.code offset
      index ← get_elem? chunk.code (offset + 1)
      (lines, end) ← rest
      let line : Captured = record { place = offset; is_local = not (is_local == 0); index = index }
      some (line ∷ lines, end)

-- `AS_FUNCTION` of a value that is a function.
abbrev pub function_in : List Obj → Value → Option ObjFunction
function_in objects (Value.obj p) = as_function (get_elem? objects p)
function_in objects _ = none

unfoldable pub closure_instruction : List Obj → OpCode → Chunk → ℕ → Option (Text × ℕ)
unfolding list_upvalues
closure_instruction objects name chunk offset = do
  constant ← get_elem? chunk.code (offset + 1)
  value ← get_elem? chunk.constants.values constant
  f ← function_in objects value
  (lines, end) ← list_upvalues f.upvalue_count chunk (offset + 2)
  some (with_upvalues name constant value lines, end)

-- The `switch` of `disassembleInstruction`.
unfoldable pub disassemble_opcode : List Obj → OpCode → Chunk → ℕ → Option (Text × ℕ)
unfolding constant_instruction invoke_instruction simple_instruction byte_instruction
    jump_instruction closure_instruction
disassemble_opcode objects OpCode.op_constant chunk = constant_instruction OpCode.op_constant chunk
disassemble_opcode objects OpCode.op_nil chunk = simple_instruction OpCode.op_nil
disassemble_opcode objects OpCode.op_true chunk = simple_instruction OpCode.op_true
disassemble_opcode objects OpCode.op_false chunk = simple_instruction OpCode.op_false
disassemble_opcode objects OpCode.op_pop chunk = simple_instruction OpCode.op_pop
disassemble_opcode objects OpCode.op_get_local chunk = byte_instruction OpCode.op_get_local chunk
disassemble_opcode objects OpCode.op_set_local chunk = byte_instruction OpCode.op_set_local chunk
disassemble_opcode objects OpCode.op_get_global chunk =
    constant_instruction OpCode.op_get_global chunk
disassemble_opcode objects OpCode.op_define_global chunk =
    constant_instruction OpCode.op_define_global chunk
disassemble_opcode objects OpCode.op_set_global chunk =
    constant_instruction OpCode.op_set_global chunk
disassemble_opcode objects OpCode.op_get_upvalue chunk =
    byte_instruction OpCode.op_get_upvalue chunk
disassemble_opcode objects OpCode.op_set_upvalue chunk =
    byte_instruction OpCode.op_set_upvalue chunk
disassemble_opcode objects OpCode.op_get_property chunk =
    constant_instruction OpCode.op_get_property chunk
disassemble_opcode objects OpCode.op_set_property chunk =
    constant_instruction OpCode.op_set_property chunk
disassemble_opcode objects OpCode.op_get_super chunk =
    constant_instruction OpCode.op_get_super chunk
disassemble_opcode objects OpCode.op_equal chunk = simple_instruction OpCode.op_equal
disassemble_opcode objects OpCode.op_greater chunk = simple_instruction OpCode.op_greater
disassemble_opcode objects OpCode.op_less chunk = simple_instruction OpCode.op_less
disassemble_opcode objects OpCode.op_add chunk = simple_instruction OpCode.op_add
disassemble_opcode objects OpCode.op_subtract chunk = simple_instruction OpCode.op_subtract
disassemble_opcode objects OpCode.op_multiply chunk = simple_instruction OpCode.op_multiply
disassemble_opcode objects OpCode.op_divide chunk = simple_instruction OpCode.op_divide
disassemble_opcode objects OpCode.op_not chunk = simple_instruction OpCode.op_not
disassemble_opcode objects OpCode.op_negate chunk = simple_instruction OpCode.op_negate
disassemble_opcode objects OpCode.op_print chunk = simple_instruction OpCode.op_print
disassemble_opcode objects OpCode.op_jump chunk = jump_instruction OpCode.op_jump plus chunk
disassemble_opcode objects OpCode.op_jump_if_false chunk =
    jump_instruction OpCode.op_jump_if_false plus chunk
disassemble_opcode objects OpCode.op_loop chunk = jump_instruction OpCode.op_loop minus chunk
disassemble_opcode objects OpCode.op_call chunk = byte_instruction OpCode.op_call chunk
disassemble_opcode objects OpCode.op_invoke chunk = invoke_instruction OpCode.op_invoke chunk
disassemble_opcode objects OpCode.op_super_invoke chunk =
    invoke_instruction OpCode.op_super_invoke chunk
disassemble_opcode objects OpCode.op_closure chunk =
    closure_instruction objects OpCode.op_closure chunk
disassemble_opcode objects OpCode.op_close_upvalue chunk =
    simple_instruction OpCode.op_close_upvalue
disassemble_opcode objects OpCode.op_return chunk = simple_instruction OpCode.op_return
disassemble_opcode objects OpCode.op_class chunk = constant_instruction OpCode.op_class chunk
disassemble_opcode objects OpCode.op_inherit chunk = simple_instruction OpCode.op_inherit
disassemble_opcode objects OpCode.op_method chunk = constant_instruction OpCode.op_method chunk

-- The line number, but `none` where it is that of the byte before. At offset 0 the byte before is not
-- looked at: the cell 0 that stands for it here is the one that has just been read.
unfoldable pub line_mark : Chunk → ℕ → Option (Option ℕ)
line_mark chunk offset = do
  line ← get_elem? chunk.lines offset
  before ← get_elem? chunk.lines (offset - 1)
  some (if ltb 0 offset && (line == before) then none else some line)

-- The line of an instruction, and the offset of the next one.
unfoldable pub disassemble_instruction : List Obj → Chunk → ℕ → Option (Line × ℕ)
unfolding line_mark disassemble_opcode decode
disassemble_instruction objects chunk offset = do
  line ← line_mark chunk offset
  instruction ← get_elem? chunk.code offset
  (text, next) ← elim (decode instruction) [
    | none ↦ some (unknown instruction, offset + 1)
    | some op ↦ disassemble_opcode objects op chunk offset
  ]
  some (record { offset = offset; line = line; text = text }, next)

unfoldable pub disassemble_loop : ℕ → List Obj → Chunk → ℕ → Option (List Line)
unfolding disassemble_instruction
disassemble_loop zero objects chunk offset = if ltb offset chunk.count then none else some []
disassemble_loop (suc fuel) objects chunk offset =
    let more = (do
      (line, next) ← disassemble_instruction objects chunk offset
      lines ← disassemble_loop fuel objects chunk next
      some (line ∷ lines)) in
    if ltb offset chunk.count then more else some []

-- The header with the name, and the lines; an instruction takes a byte at least, so that the loop ends
-- in as many rounds as there are bytes.
unfoldable pub disassemble_chunk : List Obj → Chunk → (name : Bytes) → Option (Bytes × List Line)
unfolding disassemble_loop
disassemble_chunk objects chunk name = do
  lines ← disassemble_loop chunk.count objects chunk 0
  some (name, lines)
