-- ===== src/Interp/Interpret.antt =====
-- `initVM` and `interpret` of src/vm/interp/interp.cc.
use yscript.Prelude.{ℕ, [], Bool, true, false, Option, none, some}
use yscript.Prelude.Bytes.{Bytes, codes}
use yscript.Value.{Ptr, obj}
use yscript.Memory.{new_closure, new_native, copy_string}
use yscript.Table.{init_table, table_set}
use yscript.Interp.{
  Machine, Vm, Outcome, returns, fails, stuck, M, ◌>>=◌, ◌>>◌, pure, get, modify, given, in_memory,
  object_at, push, pop, as_function,
}
use yscript.Interp.Calls.{keys_of, call}
use yscript.Compiler.Compile.{compile, start_state}
use yscript.Interp.Run.{run}

unfoldable pub define_native : Bytes → ℕ → M (Unit {0})
unfolding copy_string new_native push pop table_set
define_native name n = do
  vm ← get
  (p, m) ← given (copy_string name vm.memory)
  modify (λ vm. record vm { memory = m })
  push (obj p)
  q ← in_memory (new_native n)
  push (obj q)
  vm₁ ← get
  (_, globals) ← given (table_set (keys_of vm₁) vm₁.globals p (obj q))
  modify (λ vm. record vm { globals = globals })
  _ ← pop
  _ ← pop
  pure tt

unfoldable pub blank_vm : Vm
unfolding init_table
blank_vm = record {
  memory = record { objects = []; strings = init_table };
  stack = [];
  frames = [];
  globals = init_table;
  init_string = none;
  open_upvalues = none;
  clock_calls = 0;
  printed = [];
  errors = [];
}

unfoldable pub init_vm : M (Unit {0})
unfolding blank_vm copy_string define_native
init_vm _ =
    (do
      vm ← get
      (p, m) ← given (copy_string (codes "init") vm.memory)
      modify (λ vm. record vm { memory = m; init_string = some p })
      define_native (codes "clock") 0)
      blank_vm

-- The compiler works on the memory of the machine; `none` says that its fuel has run out, or that it has read
-- what is not there, and `some (none, _)` that it has reported an error.
unfoldable pub compile_in : (strtod : Bytes → ℕ) → ℕ → Bytes → Vm → Option (Option Ptr × Vm)
unfolding compile start_state
compile_in strtod fuel source vm =
    elim (compile strtod fuel source (record (start_state strtod) { memory = vm.memory })) [
      | none ↦ none
      | some (p, s) ↦ some (p, record vm { memory = s.memory })
    ]

pub data InterpretResult : Type 0 where
  interpret_ok interpret_compile_error interpret_runtime_error : InterpretResult

-- The closure of the script takes the place of its function on the stack, and is called.
unfoldable pub start_script : Ptr → M (Unit {0})
unfolding push new_closure pop call
start_script p = do
  push (obj p)
  o ← object_at p
  f ← given (as_function (some o))
  c ← in_memory (new_closure p f.upvalue_count)
  _ ← pop
  push (obj c)
  call c 0

-- How far a call of `interpret` has come: it has answered; it goes on behind the rounds, from this machine;
-- the compiler has ended without a result; or the machine has got stuck.
pub data Progress : Type 0 where
  answered : InterpretResult → Vm → Progress
  running : Vm → Progress
  uncompiled undefined : Progress

unfoldable pub result_of : Outcome Bool → Progress
result_of (returns true vm) = answered interpret_ok vm
result_of (returns false vm) = running vm
result_of (fails vm) = answered interpret_runtime_error vm
result_of stuck = undefined

-- `fuel` bounds the nesting of the text, and `rounds` the instructions that are executed. `interpret` does
-- not look at the answer of `call`: where that is `false`, there is no frame to run.
unfoldable pub interpret :
    Machine → (strtod : Bytes → ℕ) → (fuel rounds : ℕ) → Bytes → Vm → Progress
unfolding compile_in start_script run result_of
interpret machine strtod fuel rounds source vm = elim (compile_in strtod fuel source vm) [
  | none ↦ uncompiled
  | some (none, vm') ↦ answered interpret_compile_error vm'
  | some (some p, vm') ↦ elim (start_script p vm') [
    | returns _ vm'' ↦ result_of (run machine rounds vm'')
    | fails vm'' ↦ undefined
    | stuck ↦ undefined
  ]
]
