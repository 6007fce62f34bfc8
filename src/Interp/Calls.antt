-- ===== src/Interp/Calls.antt =====
-- Calls, methods and the concatenation of strings (`call` to `concatenate` of
-- src/vm/interp/interp.cc).
use yscript.Prelude.{
  ℕ, ◌+◌, ◌-◌, ◌∷◌, ◌++◌, not, Option, none, some, ◌==◌, leb, if◌then◌else◌, length, take, drop,
}
use yscript.Prelude.Bytes.{Bytes}
use yscript.Value.{Ptr, Value, number, obj, ObjString, Table}
use yscript.Memory.{
  Obj, bound_method, class, closure, function, instance_of, native, string, ObjFunction, string_at,
  new_instance, new_bound_method, copy_string,
}
use yscript.Table.{table_get, table_set}
use yscript.Interp.{
  Machine, wrong_count, stack_overflow, no_callable, no_methods, undefined_property, Vm, returns, M,
  ◌>>=◌, ◌>>◌, pure, halt, get, modify, given, in_memory, object_at, set_object, push, pop, peek,
  poke, function_of, runtime_error,
}

abbrev pub frames_max : ℕ
frames_max = 64

-- `AS_OBJ` of a value that is one.
abbrev pub as_obj : Value → Option Ptr
as_obj (obj p) = some p
as_obj _ = none

abbrev pub as_class : Obj → Option (Ptr × Table)
as_class (class name methods) = some (name, methods)
as_class _ = none

abbrev pub as_instance : Obj → Option (Ptr × Table)
as_instance (instance_of klass fields) = some (klass, fields)
as_instance _ = none

-- `AS_CLASS`; the code does not test what it casts.
unfoldable pub class_at : Ptr → M (Ptr × Table)
class_at p = do o ← object_at p; given (as_class o)

abbrev pub keys_of : Vm → Ptr → ObjString
keys_of vm = string_at vm.memory

-- `tableGet` of a table whose keys are strings in memory.
unfoldable pub lookup : Table → Ptr → M (Option Value)
unfolding table_get
lookup table name vm = given (table_get (keys_of vm) table name) vm

abbrev pub name_of : Vm → Ptr → Bytes
name_of vm p = (string_at vm.memory p).chars

-- The new frame starts at the callee, under its arguments.
unfoldable pub push_frame : Ptr → ℕ → Vm → Vm
push_frame p arg_count vm = record vm {
  frames = record { closure = p; ip = 0; slots = length vm.stack - arg_count - 1 } ∷ vm.frames;
}

-- The rest of `call` for a closure of `f`.
unfoldable pub enter : Ptr → ObjFunction → ℕ → M (Unit {0})
unfolding runtime_error push_frame
enter p f arg_count = do
  vm ← get
  if not (arg_count == f.arity)
      then runtime_error (wrong_count f.arity arg_count)
      else if length vm.frames == frames_max
      then runtime_error stack_overflow
      else if leb (arg_count + 1) (length vm.stack)
      then modify (push_frame p arg_count)
      else halt

unfoldable pub call : Ptr → ℕ → M (Unit {0})
unfolding function_of enter
call p arg_count = do vm ← get; f ← given (function_of vm.memory.objects p); enter p f arg_count

-- The one native function is `clock`, the number 0.
unfoldable pub clock_native : Machine → M Value
clock_native machine vm =
    returns (number (machine.clock vm.clock_calls)) (record vm { clock_calls = vm.clock_calls + 1 })

unfoldable pub call_native : Machine → ℕ → ℕ → M (Unit {0})
unfolding clock_native push
call_native machine n arg_count = do
  result ← (if n == 0 then clock_native machine else halt)
  vm ← get
  if leb (arg_count + 1) (length vm.stack)
      then modify (λ vm. record vm { stack = drop (arg_count + 1) vm.stack }) >> push result
      else halt

-- `callValue` of a class: the new instance takes the place of the class under the arguments.
unfoldable pub call_class : Ptr → Table → ℕ → M (Unit {0})
unfolding new_instance poke lookup call runtime_error
call_class klass methods arg_count = do
  instance_ptr ← in_memory (new_instance klass)
  poke arg_count (obj instance_ptr)
  vm ← get
  name ← given vm.init_string
  initializer ← lookup methods name
  elim initializer [
    | some value ↦ do p ← given (as_obj value); call p arg_count
    | none ↦ if arg_count == 0 then pure tt else runtime_error (wrong_count 0 arg_count)
  ]

unfoldable pub call_object : Machine → Ptr → Obj → ℕ → M (Unit {0})
unfolding poke call call_class call_native runtime_error
call_object machine p (bound_method receiver method) arg_count =
    poke arg_count receiver >> call method arg_count
call_object machine p (class name methods) arg_count = call_class p methods arg_count
call_object machine p (closure f upvalues) arg_count = call p arg_count
call_object machine p (native n) arg_count = call_native machine n arg_count
call_object machine p (function f) arg_count = runtime_error no_callable
call_object machine p (instance_of klass fields) arg_count = runtime_error no_callable
call_object machine p (string s) arg_count = runtime_error no_callable
call_object machine p _ arg_count = runtime_error no_callable

unfoldable pub call_value : Machine → Value → ℕ → M (Unit {0})
unfolding call_object runtime_error
call_value machine callee arg_count = elim (as_obj callee) [
  | none ↦ runtime_error no_callable
  | some p ↦ do o ← object_at p; call_object machine p o arg_count
]

unfoldable pub invoke_from_class : Ptr → Ptr → ℕ → M (Unit {0})
unfolding class_at lookup call runtime_error
invoke_from_class klass name arg_count = do
  (_, methods) ← class_at klass
  method ← lookup methods name
  vm ← get
  elim method [
    | none ↦ runtime_error (undefined_property (name_of vm name))
    | some value ↦ do p ← given (as_obj value); call p arg_count
  ]

-- `IS_INSTANCE`, with the address.
unfoldable pub instance_of_value : Value → M (Option (Ptr × Ptr × Table))
instance_of_value value = elim (as_obj value) [
  | none ↦ pure none
  | some p ↦ do
    o ← object_at p
    pure (elim (as_instance o) [ none ↦ none | some (klass, fields) ↦ some (p, klass, fields) ])
]

unfoldable pub invoke : Machine → Ptr → ℕ → M (Unit {0})
unfolding peek instance_of_value lookup poke call_value invoke_from_class runtime_error
invoke machine name arg_count = do
  receiver ← peek arg_count
  found ← instance_of_value receiver
  elim found [
    | none ↦ runtime_error no_methods
    | some (_, klass, fields) ↦ do
      field ← lookup fields name
      elim field [
        | some value ↦ poke arg_count value >> call_value machine value arg_count
        | none ↦ invoke_from_class klass name arg_count
      ]
  ]

unfoldable pub bind_method : Ptr → Ptr → M (Unit {0})
unfolding class_at lookup peek new_bound_method pop push runtime_error
bind_method klass name = do
  (_, methods) ← class_at klass
  method ← lookup methods name
  vm ← get
  elim method [
    | none ↦ runtime_error (undefined_property (name_of vm name))
    | some value ↦ do
      p ← given (as_obj value)
      receiver ← peek 0
      bound ← in_memory (new_bound_method receiver p)
      _ ← pop
      push (obj bound)
  ]

unfoldable pub define_method : Ptr → M (Unit {0})
unfolding peek class_at table_set pop
define_method name = do
  method ← peek 0
  value ← peek 1
  klass ← given (as_obj value)
  (class_name, methods) ← class_at klass
  vm ← get
  (_, methods') ← given (table_set (keys_of vm) methods name method)
  set_object klass (class class_name methods')
  _ ← pop
  pure tt

abbrev pub text_of : ObjString → Bytes
text_of s = take s.length s.chars

unfoldable pub concatenate : Ptr → Ptr → M (Unit {0})
unfolding copy_string pop push
concatenate a b = do
  vm ← get
  let chars = text_of (keys_of vm a) ++ text_of (keys_of vm b)
  (result, m) ← given (copy_string chars vm.memory)
  modify (λ vm. record vm { memory = m })
  _ ← pop
  _ ← pop
  push (obj result)
