-- ===== src/Interp.antt =====
-- The interpreter (src/vm/interp/interp.h and src/vm/interp/interp.cc): its state and the commands on
-- it. `Upvalues` has the list of the open upvalues, `Calls` the calls and the methods, `Operands`
-- and `Instructions` what an instruction does, `Run` the loop and `Interpret` what starts it. `Chain`,
-- `Jumps`, `Constants` and `Keeps` have the proofs.
pub mod Upvalues
pub mod Calls
pub mod Operands
pub mod Instructions
pub mod Run
pub mod Jumps
pub mod Constants
pub mod Chain
pub mod Keeps
pub mod Interpret
use yscript.Prelude.{
  ℕ, zero, suc, ◌+◌, ◌-◌, ◌*◌, List, [], ◌∷◌, ◌++◌, Bool, true, false, not, Option, none, some,
  ◌==◌, ltb, leb, if◌then◌else◌, length, get_or, get_elem?, set, take, drop, map,
}
use yscript.Prelude.Bytes.{Bytes}
use yscript.Value.{Ptr, Value, bool, nil, number, obj, Table}
use yscript.Chunk.{Chunk}
use yscript.Memory.{Obj, function, closure, ObjFunction, Memory, string_at}

-- What the interpreter takes of the hardware and of the C library: arithmetic and comparison of
-- doubles, and the value of the n-th call of `clock() / CLOCKS_PER_SEC`.
pub record Machine : Type 0 where
  pub double_eq : ℕ → ℕ → Bool
  pub double_gt : ℕ → ℕ → Bool
  pub double_lt : ℕ → ℕ → Bool
  pub double_add : ℕ → ℕ → ℕ
  pub double_sub : ℕ → ℕ → ℕ
  pub double_mul : ℕ → ℕ → ℕ
  pub double_div : ℕ → ℕ → ℕ
  pub double_neg : ℕ → ℕ
  pub clock : ℕ → ℕ

-- `ip` is an index into the code, and `slots` the number of the values below the frame.
pub record CallFrame : Type 0 where
  pub closure : Ptr
  pub ip : ℕ
  pub slots : ℕ

-- The messages of `runtimeError`, with what they print.
pub data Message : Type 0 where
  wrong_count : (expected given : ℕ) → Message
  stack_overflow no_callable no_methods no_properties no_fields : Message
  no_numbers no_number no_operands no_superclass : Message
  undefined_property undefined_variable : Bytes → Message

-- A line of the stack trace: the line number, and the name of the function, the script having none.
pub record TraceLine : Type 0 where
  pub line : ℕ
  pub name : Option Bytes

pub record RuntimeError : Type 0 where
  pub message : Message
  pub trace : List TraceLine

-- The stack below `stackTop`, the top first; a slot is the number of those below it. The frames,
-- the current one first. `printed` and `errors` are what has been written, in order.
pub record Vm : Type 0 where
  pub memory : Memory
  pub stack : List Value
  pub frames : List CallFrame
  pub globals : Table
  pub init_string : Option Ptr
  pub open_upvalues : Option Ptr
  pub clock_calls : ℕ
  pub printed : List Value
  pub errors : List RuntimeError

-- How a command ends: it returns, or it has reported a runtime error (a function answers `false`, or
-- `run` answers `INTERPRET_RUNTIME_ERROR`). `stuck` says that the code would read or write where
-- nothing is, or that fuel has run out.
pub data Outcome (A : Type 0) : Type 0 where
  returns : A → Vm → Outcome A
  fails : Vm → Outcome A
  stuck : Outcome A

abbrev pub M : Type 0 → Type 0
M A = Vm → Outcome A

infixl 5 ◌>>=◌ ◌>>◌
abbrev pub ◌>>=◌ : {A B : Type 0} → M A → (A → M B) → M B
◌>>=◌ m f vm = elim (m vm) [ returns a vm' ↦ f a vm' | fails vm' ↦ fails vm' | stuck ↦ stuck ]

abbrev pub ◌>>◌ : {B : Type 0} → M (Unit {0}) → M B → M B
m >> k = m >>= λ _. k

abbrev pub pure : {A : Type 0} → A → M A
pure a vm = returns a vm

abbrev pub halt : {A : Type 0} → M A
halt vm = stuck

abbrev pub get : M Vm
get vm = returns vm vm

abbrev pub modify : (Vm → Vm) → M (Unit {0})
modify f vm = returns tt (f vm)

-- A value that is there, or else nothing that the code could do.
abbrev pub given : {A : Type 0} → Option A → M A
given none vm = stuck
given (some a) vm = returns a vm

abbrev pub in_memory : {A : Type 0} → (Memory → A × Memory) → M A
in_memory f vm = let (a, m) = f vm.memory in returns a (record vm { memory = m })

-- The object at an address, and a write of one.
abbrev pub object_at : Ptr → M Obj
object_at p vm = given (get_elem? vm.memory.objects p) vm

abbrev pub set_object : Ptr → Obj → M (Unit {0})
set_object p o =
    modify λ vm. record vm { memory = record (vm.memory) { objects = set vm.memory.objects p o } }

abbrev pub stack_max : ℕ
stack_max = 16384

-- `push` does not test for the end of the array: beyond it there is nothing.
unfoldable pub push : Value → M (Unit {0})
push value vm =
    if ltb (length vm.stack) stack_max
    then returns tt (record vm { stack = value ∷ vm.stack })
    else stuck

unfoldable pub pop : M Value
pop vm = elim vm.stack [ [] ↦ stuck | value ∷ rest ↦ returns value (record vm { stack = rest }) ]

unfoldable pub peek : ℕ → M Value
peek distance vm = given (get_elem? vm.stack distance) vm

-- `vm.stackTop[-1 - distance] = value`
unfoldable pub poke : ℕ → Value → M (Unit {0})
poke distance value vm =
    if ltb distance (length vm.stack)
    then returns tt (record vm { stack = set vm.stack distance value })
    else stuck

unfoldable pub is_falsey : Value → Bool
is_falsey nil = true
is_falsey (bool b) = not b
is_falsey _ = false

unfoldable pub reset_stack : Vm → Vm
reset_stack vm = record vm { stack = []; frames = []; open_upvalues = none }

abbrev pub as_closure : Option Obj → Option (Ptr × List (Option Ptr))
as_closure (some (closure f upvalues)) = some (f, upvalues)
as_closure _ = none

abbrev pub as_function : Option Obj → Option ObjFunction
as_function (some (function f)) = some f
as_function _ = none

-- `*closure->function`
unfoldable pub function_of : List Obj → Ptr → Option ObjFunction
function_of objects p = elim (as_closure (get_elem? objects p)) [
  | none ↦ none
  | some (f, _) ↦ as_function (get_elem? objects f)
]

-- The line of the instruction before `ip`.
unfoldable pub trace_line : Memory → CallFrame → Option TraceLine
unfolding function_of
trace_line m frame = elim (function_of m.objects frame.closure) [
  | none ↦ none
  | some f ↦ some (record {
    line = get_or f.chunk.lines (frame.ip - 1) 0;
    name = elim f.name [ none ↦ none | some p ↦ some (string_at m p).chars ];
  })
]

unfoldable pub stack_trace : Memory → List CallFrame → Option (List TraceLine)
unfolding trace_line
stack_trace m [] = some []
stack_trace m (frame ∷ frames) = elim (trace_line m frame) [
  | none ↦ none
  | some line ↦ elim (stack_trace m frames) [ none ↦ none | some lines ↦ some (line ∷ lines) ]
]

unfoldable pub runtime_error : {A : Type 0} → Message → M A
unfolding stack_trace reset_stack
runtime_error message vm = elim (stack_trace vm.memory vm.frames) [
  | none ↦ stuck
  | some trace ↦ fails (
      reset_stack
        (record vm { errors = vm.errors ++ record { message = message; trace = trace } ∷ [] }))
]

-- `READ_SHORT` with the instruction pointer at `ip`: two bytes, the high one first.
unfoldable pub read_short : List ℕ → ℕ → ℕ
read_short code ip = get_or code ip 0 * 256 + get_or code (ip + 1) 0
