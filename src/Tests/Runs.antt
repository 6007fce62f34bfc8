-- ===== src/Tests/Runs.antt =====
-- The theorems on whole runs of the interpreter at concrete machines.
use yscript.Prelude.{length, ◌<◌, false, ◌+◌, ◌≡◌, refl, List, [], ◌∷◌, none, some, arith}
use yscript.Prelude.Bytes.{codes}
use yscript.Compiler.{State}
use yscript.Compiler.Emit.{emit_constant, patch_jump, emit_loop}
use yscript.Compiler.Jumps.{Writes}
use yscript.Value.{number, Value, nil}
use yscript.Chunk.{Chunk}
use yscript.OpCode.{byte_of, op_nil}
use yscript.Memory.{ObjFunction, function, closure}
use yscript.Interp.{Machine, stack_max, Vm, Outcome, returns, fails, stuck}
use yscript.Interp.Run.{jump, loop_back, step}
use yscript.Interp.Interpret.{interpret, blank_vm}
use yscript.Interp.Constants.{step-emit_constant}
use yscript.Interp.Jumps.{Runs, moved_to, jump-patch_jump, loop_back-emit_loop}
use yscript.Interp.Keeps.Bounds.{Ends, Answers, step-Ends, interpret-Answers}
use yscript.Tests.Code.{some_state, some_function, some_state-Writes, small_chunk-IsValid}
use yscript.Tests.Programs.{small_numbers, decimal}

jump-patch_jump_example :
    (s' : State) × (g : ObjFunction) × (patch_jump 1 some_state ≡ some (tt, s'))
    × Writes s' g
    × ((vm : Vm) (r : Runs vm g 1) → jump vm ≡ returns tt (moved_to vm r 7))
jump-patch_jump_example =
    jump-patch_jump some_state some_function 1 some_state-Writes small_chunk-IsValid (omega arith)
      (omega arith)

loop_back-emit_loop_example :
    (s' : State) × (g : ObjFunction) × (emit_loop 3 some_state ≡ some (tt, s'))
    × Writes s' g
    × ((vm : Vm) (r : Runs vm g (7 + 1)) → loop_back vm ≡ returns tt (moved_to vm r 3))
loop_back-emit_loop_example =
    loop_back-emit_loop some_state some_function 3 some_state-Writes small_chunk-IsValid
      (omega arith) (omega arith)

abbrev pub pushes_nil : Chunk
pushes_nil = record {
  count = 1;
  capacity = 1;
  code = byte_of op_nil ∷ [];
  lines = 1 ∷ [];
  constants = record { capacity = 0; count = 0; values = [] };
}

-- A machine that is to execute the code of a function, behind a value on its stack.
abbrev pub executing : Vm
executing = record {
  memory = record {
    objects =
        closure 1 []
        ∷ function (record { arity = 0; upvalue_count = 0; chunk = pushes_nil; name = none })
        ∷ [];
    strings = record { count = 0; capacity = 0; entries = [] };
  };
  stack = nil ∷ [];
  frames = record { closure = 0; ip = 0; slots = 0 } ∷ [];
  globals = record { count = 0; capacity = 0; entries = [] };
  init_string = none;
  open_upvalues = none;
  clock_calls = 0;
  printed = [];
  errors = [];
}

abbrev outcome_stack : {A : Type 0} → Outcome A → List Value
outcome_stack (returns _ vm) = vm.stack
outcome_stack (fails vm) = []
outcome_stack stuck = []

nil_is_pushed : outcome_stack (step small_numbers executing) ≡ nil ∷ nil ∷ []
unfolding step byte_of
nil_is_pushed = refl

step-Ends_example : Ends [] (step small_numbers executing)
step-Ends_example = step-Ends small_numbers executing (omega arith) (omega arith)

interpret-Answers_example :
    Answers [] (interpret small_numbers (λ text. decimal text 0) 30 300 (codes "print y;") blank_vm)
unfolding blank_vm
interpret-Answers_example =
    interpret-Answers small_numbers (λ text. decimal text 0) 30 300 (codes "print y;") blank_vm
      (omega arith) (omega arith)

step-emit_constant_example :
    (s' : State) × (g : ObjFunction) × (emit_constant (number 9) some_state ≡ some (tt, s'))
    × Writes s' g
    × ((machine : Machine) (vm : Vm) (r : Runs vm g 7)
        → length vm.stack < stack_max
        → step machine vm
          ≡ returns false (record (moved_to vm r (7 + 2)) { stack = number 9 ∷ vm.stack }))
step-emit_constant_example =
    step-emit_constant some_state some_function (number 9) some_state-Writes small_chunk-IsValid
      (omega arith)
