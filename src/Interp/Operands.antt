-- ===== src/Interp/Operands.antt =====
-- What the instructions of the interpreter read and compute (the macros of `run` in
-- src/vm/interp/interp.cc).
use yscript.Prelude.{
  ℕ, ◌+◌, List, [], ◌∷◌, Bool, true, false, Option, none, some, ltb, if◌then◌else◌, length,
  get_elem?,
}
use yscript.Value.{Ptr, Value, number, obj}
use yscript.Chunk.{Chunk}
use yscript.Memory.{Obj, string, upvalue, slot, own, Memory}
use yscript.Interp.{
  Machine, CallFrame, no_numbers, no_operands, M, ◌>>=◌, ◌>>◌, pure, halt, get, modify, given,
  set_object, push, pop, peek, as_closure, function_of, runtime_error, read_short,
}
use yscript.Interp.Upvalues.{load_slot, store_slot}
use yscript.Interp.Calls.{as_obj, concatenate}

abbrev pub first {ℓ} : {A : Type ℓ} → List A → Option A
first [] = none
first (x ∷ xs) = some x

unfoldable pub current_frame : M CallFrame
current_frame vm = given (first vm.frames) vm

abbrev pub update_first : (CallFrame → CallFrame) → List CallFrame → List CallFrame
update_first f [] = []
update_first f (x ∷ xs) = f x ∷ xs

unfoldable pub set_ip : ℕ → M (Unit {0})
set_ip ip = modify λ vm. record vm { frames = update_first (λ f. record f { ip = ip }) vm.frames }

unfoldable pub current_chunk : M Chunk
unfolding current_frame function_of
current_chunk = do
  frame ← current_frame
  vm ← get
  f ← given (function_of vm.memory.objects frame.closure)
  pure (f.chunk)

unfoldable pub read_byte : M ℕ
unfolding current_frame current_chunk set_ip
read_byte = do
  frame ← current_frame
  chunk ← current_chunk
  byte ← given (get_elem? chunk.code frame.ip)
  set_ip (frame.ip + 1)
  pure byte

unfoldable pub read_offset : M ℕ
unfolding current_frame current_chunk set_ip read_short
read_offset = do
  frame ← current_frame
  chunk ← current_chunk
  if ltb (frame.ip + 1) (length chunk.code)
      then set_ip (frame.ip + 2) >> pure (read_short chunk.code frame.ip)
      else halt

unfoldable pub read_constant : M Value
unfolding read_byte current_chunk
read_constant = do
  byte ← read_byte
  chunk ← current_chunk
  given (get_elem? chunk.constants.values byte)

-- `READ_STRING`, `AS_FUNCTION(READ_CONSTANT())`: the address of the object.
unfoldable pub read_object : M Ptr
unfolding read_constant
read_object = do value ← read_constant; given (as_obj value)

-- The address of the upvalue in a slot of the current closure.
unfoldable pub upvalue_in : ℕ → M Ptr
unfolding current_frame
upvalue_in i = do
  frame ← current_frame
  vm ← get
  (_, upvalues) ← given (as_closure (get_elem? vm.memory.objects frame.closure))
  entry ← given (get_elem? upvalues i)
  given entry

-- `*upvalue->location`
abbrev pub load_upvalue : Obj → M Value
load_upvalue (upvalue (slot i) closed next) = load_slot i
load_upvalue (upvalue own closed next) = pure closed
load_upvalue _ = halt

abbrev pub store_upvalue : Ptr → Value → Obj → M (Unit {0})
store_upvalue p value (upvalue (slot i) closed next) = store_slot i value
store_upvalue p value (upvalue own closed next) = set_object p (upvalue own value next)
store_upvalue p value _ = halt

abbrev pub as_number : Value → Option ℕ
as_number (number n) = some n
as_number _ = none

-- `BINARY_OP`, by what it pushes.
unfoldable pub binary_op : (ℕ → ℕ → Value) → M (Unit {0})
unfolding peek pop push runtime_error
binary_op op = do
  right ← peek 0
  elim (as_number right) [
    | none ↦ runtime_error no_numbers
    | some b ↦ do
      left ← peek 1
      elim (as_number left) [
        | none ↦ runtime_error no_numbers
        | some a ↦ do _ ← pop; _ ← pop; push (op a b)
      ]
  ]

abbrev pub is_string : Option Obj → Bool
is_string (some (string s)) = true
is_string _ = false

-- `IS_STRING`, with the address.
abbrev pub string_in : Memory → Value → Option Ptr
string_in m (obj p) = if is_string (get_elem? m.objects p) then some p else none
string_in m _ = none

unfoldable pub add_numbers : Machine → M (Unit {0})
unfolding peek pop push runtime_error
add_numbers machine = do
  right ← peek 0
  elim (as_number right) [
    | none ↦ runtime_error no_operands
    | some b ↦ do
      left ← peek 1
      elim (as_number left) [
        | none ↦ runtime_error no_operands
        | some a ↦ do _ ← pop; _ ← pop; push (number (machine.double_add a b))
      ]
  ]

unfoldable pub add : Machine → M (Unit {0})
unfolding peek concatenate add_numbers
add machine = do
  b ← peek 0
  vm ← get
  elim (string_in vm.memory b) [
    | none ↦ add_numbers machine
    | some q ↦ do
      a ← peek 1
      elim (string_in vm.memory a) [ none ↦ add_numbers machine | some p ↦ concatenate p q ]
  ]
