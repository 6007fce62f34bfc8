-- ===== src/Interp/Instructions.antt =====
-- The instructions on variables, properties, closures and classes (the cases of `run` in
-- src/vm/interp/interp.cc).
use yscript.Prelude.{
  ℕ, zero, suc, ◌+◌, ◌-◌, Bool, true, false, Option, none, some, ◌==◌, leb, if◌then◌else◌, length,
  get_elem?, set, drop,
}
use yscript.Value.{Ptr, Value, obj, Table}
use yscript.Memory.{Obj, class, closure, instance_of, new_closure}
use yscript.Table.{table_set, table_delete, table_add_all}
use yscript.Interp.{
  undefined_variable, no_properties, no_fields, no_superclass, Vm, M, ◌>>=◌, ◌>>◌, pure, halt, get,
  modify, given, in_memory, object_at, set_object, push, pop, peek, as_closure, as_function,
  runtime_error,
}
use yscript.Interp.Upvalues.{capture_upvalue, close_upvalues}
use yscript.Interp.Calls.{
  as_obj, as_class, class_at, keys_of, lookup, name_of, instance_of_value, bind_method,
}
use yscript.Interp.Operands.{current_frame, read_byte, read_object, upvalue_in}

unfoldable pub get_global : M (Unit {0})
unfolding read_object lookup push runtime_error
get_global = do
  name ← read_object
  vm ← get
  value ← lookup vm.globals name
  elim value [ none ↦ runtime_error (undefined_variable (name_of vm name)) | some v ↦ push v ]

unfoldable pub define_global : M (Unit {0})
unfolding read_object peek table_set pop
define_global = do
  name ← read_object
  value ← peek 0
  vm ← get
  (_, globals) ← given (table_set (keys_of vm) vm.globals name value)
  modify (λ vm. record vm { globals = globals })
  _ ← pop
  pure tt

-- A new key is taken out again.
unfoldable pub set_global : M (Unit {0})
unfolding read_object peek table_set table_delete runtime_error
set_global = do
  name ← read_object
  value ← peek 0
  vm ← get
  (is_new, globals) ← given (table_set (keys_of vm) vm.globals name value)
  modify (λ vm. record vm { globals = globals })
  let undo = (do
    (_, globals') ← given (table_delete (keys_of vm) globals name)
    modify (λ vm. record vm { globals = globals' })
    runtime_error (undefined_variable (name_of vm name)))
  if is_new then undo else pure tt

unfoldable pub get_property : M (Unit {0})
unfolding peek instance_of_value read_object lookup pop push bind_method runtime_error
get_property = do
  value ← peek 0
  found ← instance_of_value value
  elim found [
    | none ↦ runtime_error no_properties
    | some (_, klass, fields) ↦ do
      name ← read_object
      field ← lookup fields name
      elim field [ some v ↦ do _ ← pop; push v | none ↦ bind_method klass name ]
  ]

unfoldable pub set_property : M (Unit {0})
unfolding peek instance_of_value read_object table_set pop push runtime_error
set_property = do
  target ← peek 1
  found ← instance_of_value target
  elim found [
    | none ↦ runtime_error no_fields
    | some (p, klass, fields) ↦ do
      name ← read_object
      value ← peek 0
      vm ← get
      (_, fields') ← given (table_set (keys_of vm) fields name value)
      set_object p (instance_of klass fields')
      result ← pop
      _ ← pop
      push result
  ]

-- The loop of `OP_CLOSURE` over the upvalues from `i` on.
unfoldable pub fill_upvalues : ℕ → ℕ → Ptr → M (Unit {0})
unfolding read_byte current_frame capture_upvalue upvalue_in
fill_upvalues zero i p = pure tt
fill_upvalues (suc n) i p =
    let rest = fill_upvalues n (suc i) p in
    do
      is_local ← read_byte
      index ← read_byte
      frame ← current_frame
      u ← (if is_local == 0 then upvalue_in index else capture_upvalue (frame.slots + index))
      o ← object_at p
      (f, upvalues) ← given (as_closure (some o))
      set_object p (closure f (set upvalues i (some u)))
      rest

unfoldable pub make_closure : M (Unit {0})
unfolding read_object new_closure push fill_upvalues
make_closure = do
  p ← read_object
  o ← object_at p
  f ← given (as_function (some o))
  c ← in_memory (new_closure p f.upvalue_count)
  push (obj c)
  fill_upvalues f.upvalue_count 0 c

abbrev pub class_of : Option Obj → Option (Ptr × Table)
class_of none = none
class_of (some o) = as_class o

-- `IS_CLASS`, with the class.
abbrev pub class_in : Vm → Value → Option (Ptr × Table)
class_in vm (obj p) = class_of (get_elem? vm.memory.objects p)
class_in vm _ = none

unfoldable pub inherit : M (Unit {0})
unfolding peek class_at table_add_all pop runtime_error
inherit = do
  superclass ← peek 1
  vm ← get
  elim (class_in vm superclass) [
    | none ↦ runtime_error no_superclass
    | some (_, methods) ↦ do
      value ← peek 0
      p ← given (as_obj value)
      (name, own_methods) ← class_at p
      methods' ← given (table_add_all (keys_of vm) methods own_methods)
      set_object p (class name methods')
      _ ← pop
      pure tt
  ]

-- The stack is cut back to where the frame began, and the result put on it. `true` says that the
-- script has ended.
unfoldable pub return_value : M Bool
unfolding pop current_frame close_upvalues push
return_value = do
  result ← pop
  frame ← current_frame
  close_upvalues frame.slots
  modify (λ vm. record vm { frames = drop 1 vm.frames })
  vm ← get
  if length vm.frames == 0
      then (do _ ← pop; pure true)
      else if leb frame.slots (length vm.stack)
      then (do
        modify (λ vm. record vm { stack = drop (length vm.stack - frame.slots) vm.stack })
        push result
        pure false)
      else halt
