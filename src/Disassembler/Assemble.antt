-- ===== src/Disassembler/Assemble.antt =====
-- The listing of src/disassembler/disassembler.cc read back: each line assembled to the bytes of its
-- instruction, against the code of the chunk.
use yscript.Prelude.{
  ℕ, zero, suc, ◌+◌, ◌-◌, ◌*◌, ◌/◌, ◌%◌, ◌≤◌, ◌<◌, ◌≡◌, List, [], ◌∷◌, ◌++◌, Bool, true, false,
  some, leb, if◌then◌else◌, get_elem?, get_or,
}
use yscript.Prelude.Bytes.{Bytes}
use yscript.Value.{Value}
use yscript.Chunk.{Chunk}
use yscript.OpCode.{OpCode, byte_of}
use yscript.Memory.{Obj, ObjFunction}
use yscript.Disassembler.{
  ℤ, pos, negsuc, Captured, Text, simple, with_constant, with_arguments, with_byte, with_jump,
  with_upvalues, unknown, Line, function_in,
}

-- What follows the opcode in the code.
pub data Shape : Type 0 where
  plain one_constant one_byte one_jump one_call one_closure : Shape

abbrev pub shape : OpCode → Shape
shape OpCode.op_constant = one_constant
shape OpCode.op_get_global = one_constant
shape OpCode.op_define_global = one_constant
shape OpCode.op_set_global = one_constant
shape OpCode.op_get_property = one_constant
shape OpCode.op_set_property = one_constant
shape OpCode.op_get_super = one_constant
shape OpCode.op_class = one_constant
shape OpCode.op_method = one_constant
shape OpCode.op_get_local = one_byte
shape OpCode.op_set_local = one_byte
shape OpCode.op_get_upvalue = one_byte
shape OpCode.op_set_upvalue = one_byte
shape OpCode.op_call = one_byte
shape OpCode.op_jump = one_jump
shape OpCode.op_jump_if_false = one_jump
shape OpCode.op_loop = one_jump
shape OpCode.op_invoke = one_call
shape OpCode.op_super_invoke = one_call
shape OpCode.op_closure = one_closure
shape _ = plain

-- The bytes between the end of a jump and its target.
abbrev pub distance : (place : ℕ) → ℤ → ℕ
distance place (pos to) = if leb place to then to - place else place - to
distance place (negsuc n) = place + n + 1

abbrev pub local_byte : Bool → ℕ
local_byte true = 1
local_byte false = 0

abbrev pub assemble_captured : List Captured → Bytes
assemble_captured [] = []
assemble_captured (c ∷ lines) = local_byte (c.is_local) ∷ c.index ∷ assemble_captured lines

abbrev pub assemble_text : Text → Bytes
assemble_text (simple op) = byte_of op ∷ []
assemble_text (with_constant op constant value) = byte_of op ∷ constant ∷ []
assemble_text (with_arguments op arg_count constant value) = byte_of op ∷ constant ∷ arg_count ∷ []
assemble_text (with_byte op slot) = byte_of op ∷ slot ∷ []
assemble_text (with_jump op from to) =
    byte_of op ∷ distance (from + 3) to / 256 ∷ distance (from + 3) to % 256 ∷ []
assemble_text (with_upvalues op constant value lines) =
    byte_of op ∷ constant ∷ assemble_captured lines
assemble_text (unknown instruction) = instruction ∷ []

abbrev pub assemble : List Line → Bytes
assemble [] = []
assemble (line ∷ lines) = assemble_text (line.text) ++ assemble lines

abbrev pub AreBytes : Bytes → Type 0
AreBytes [] = Unit
AreBytes (x ∷ xs) = (x < 256) × AreBytes xs

-- The pairs of bytes from `offset` on, of which the first is a flag.
abbrev pub AreFlags : List ℕ → ℕ → ℕ → Type 0
AreFlags code zero offset = Unit
AreFlags code (suc n) offset = (get_or code offset 0 < 2) × AreFlags code n (offset + 2)

module _ (objects : List Obj) (chunk : Chunk) where
  -- The instruction at `offset` with its operands: the next one is at `next`, and the constant that it
  -- names is there, of `OP_CLOSURE` a function, with one flag for each of its upvalues.
  abbrev pub Fits : Shape → (offset next : ℕ) → Type 0
  Fits plain offset next = next ≡ offset + 1
  Fits one_constant offset next =
      (value : Value) × (get_elem? chunk.constants.values (get_or chunk.code (offset + 1) 0)
        ≡ some value)
      × (next ≡ offset + 2)
  Fits one_byte offset next = next ≡ offset + 2
  Fits one_jump offset next = next ≡ offset + 3
  Fits one_call offset next =
      (value : Value) × (get_elem? chunk.constants.values (get_or chunk.code (offset + 1) 0)
        ≡ some value)
      × (next ≡ offset + 3)
  Fits one_closure offset next =
      (value : Value) × (f : ObjFunction) × (get_elem? chunk.constants.values
          (get_or chunk.code (offset + 1) 0)
        ≡ some value)
      × (function_in objects value ≡ some f)
      × AreFlags chunk.code f.upvalue_count (offset + 2)
      × (next ≡ offset + 2 + 2 * f.upvalue_count)

  -- The code from `offset` on is one whole instruction after the other.
  pub data IsCode : ℕ → Type 0 where
    ended : {offset : ℕ} → offset ≡ chunk.count → IsCode offset
    instruction :
        {offset : ℕ} (op : OpCode) (next : ℕ)
        → get_or chunk.code offset 0 ≡ byte_of op
        → Fits (shape op) offset next
        → next ≤ chunk.count
        → IsCode next
        → IsCode offset
