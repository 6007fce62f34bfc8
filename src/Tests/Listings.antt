-- ===== src/Tests/Listings.antt =====
-- The listings of small chunks, and the theorems on them at these chunks.
use yscript.Prelude.{
  ◌+◌, ◌≡◌, refl, List, [], ◌∷◌, false, true, Option, none, some, arith, if◌then◌else◌, map,
}
use yscript.Prelude.Bytes.{Bytes, codes}
use yscript.Value.{nil, obj}
use yscript.Chunk.{Chunk}
use yscript.Chunk.Contents.{bytes_of}
use yscript.OpCode.{OpCode, byte_of, op_jump_if_false, op_pop, op_nil, op_closure}
use yscript.Memory.{function, closure}
use yscript.Interp.{Vm, function_of, returns}
use yscript.Interp.Jumps.{Runs, moved_to}
use yscript.Interp.Run.{step}
use yscript.Printing.{print_value}
use yscript.Disassembler.{
  ℤ, plus, Text, with_jump, with_upvalues, Line, disassemble_chunk, disassemble_instruction,
}
use yscript.Disassembler.Assemble.{IsCode, assemble, ended, instruction}
use yscript.Disassembler.Whole.{disassemble_chunk-assemble}
use yscript.Disassembler.Executed.{arrives, taken, on_falsey, step-disassemble_instruction}
use yscript.Tests.Code.{some_function, small_chunk, small_chunk-IsValid}
use yscript.Tests.Programs.{small_numbers}

abbrev texts : Option (Bytes × List Line) → List Text
texts none = []
texts (some (name, lines)) = map (λ (line : Line). line.text) lines

-- A jump back that no code has written leads to before the code: -4.
abbrev closes : Chunk
closes = record {
  count = 7;
  capacity = 8;
  code = 27 ∷ 0 ∷ 7 ∷ 31 ∷ 0 ∷ 1 ∷ 2 ∷ 0 ∷ [];
  lines = 1 ∷ 1 ∷ 1 ∷ 2 ∷ 2 ∷ 2 ∷ 2 ∷ 0 ∷ [];
  constants = record { capacity = 1; count = 1; values = obj 0 ∷ [] };
}

closes_listed :
    texts (disassemble_chunk (function some_function ∷ []) closes (codes "f"))
    ≡ with_jump OpCode.op_loop 0 (ℤ.negsuc 3)
      ∷ with_upvalues op_closure 0 (obj 0) (record { place = 5; is_local = true; index = 2 } ∷ [])
      ∷ []
unfolding disassemble_chunk byte_of
closes_listed = refl

small_chunk-IsCode : IsCode [] small_chunk 0
unfolding byte_of
small_chunk-IsCode = instruction op_jump_if_false 3 refl refl (omega arith) (
    instruction op_pop 4 refl refl (omega arith) (
      instruction op_nil 5 refl refl (omega arith) (
        instruction OpCode.op_add 6 refl refl (omega arith)
          (instruction op_pop 7 refl refl (omega arith) (ended refl)))))

disassemble_chunk-assemble_example :
    (lines : List Line) × (disassemble_chunk [] small_chunk (codes "f") ≡ some (codes "f", lines))
    × (assemble lines ≡ bytes_of small_chunk)
disassemble_chunk-assemble_example =
    disassemble_chunk-assemble [] small_chunk (codes "f") small_chunk-IsValid (omega arith)
      small_chunk-IsCode

-- A machine at the first instruction of the function.
abbrev at_jump : Vm
at_jump = record {
  memory = record {
    objects = closure 1 [] ∷ function some_function ∷ [];
    strings = record { count = 0; capacity = 0; entries = [] };
  };
  stack = nil ∷ [];
  frames = record { closure = 0; ip = 0; slots = 0 } ∷ [];
  globals = record { count = 0; capacity = 0; entries = [] };
  init_string = none;
  open_upvalues = none;
  clock_calls = 0;
  printed = [];
  errors = [];
}

abbrev at_jump-Runs : Runs at_jump some_function 0
unfolding function_of
at_jump-Runs = record {
  frame = record { closure = 0; ip = 0; slots = 0 };
  callers = [];
  head = refl;
  code = refl;
  place = refl;
}

step-disassemble_instruction_example :
    (line : Line) × (to : ℤ) × (disassemble_instruction [] small_chunk 0 ≡ some (line, 0 + 3))
    × (line.text ≡ with_jump op_jump_if_false 0 to)
    × (step small_numbers at_jump ≡ (
        if taken op_jump_if_false nil
        then arrives at_jump at_jump-Runs false to
        else returns false (moved_to at_jump at_jump-Runs (0 + 3))))
unfolding byte_of
step-disassemble_instruction_example =
    step-disassemble_instruction [] small_numbers at_jump some_function 0 at_jump-Runs
      op_jump_if_false plus nil [] small_chunk-IsValid (omega arith) on_falsey refl refl

-- What the script, a closure of it and a number print.
script_printed :
    print_value (function some_function ∷ []) (λ n. codes "7") (obj 0) ≡ some (codes "<script>")
unfolding print_value
script_printed = refl

closure_printed :
    print_value (function some_function ∷ closure 0 [] ∷ []) (λ n. codes "7") (obj 1)
    ≡ some (codes "<script>")
unfolding print_value
closure_printed = refl
