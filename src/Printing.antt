-- ===== src/Printing.antt =====
-- The text that `printValue` (src/common/ysvalue.cc) and `printObject` (src/common/ysobject.cc) print. The
-- format "%g" of a double is a parameter; a string has no byte 0 within its text, where "%s" would stop.
-- `none` says that an object is not of the kind that the code takes it for.
use yscript.Prelude.{ℕ, List, ◌++◌, Option, none, some, if◌then◌else◌, get_elem?}
use yscript.Prelude.Bytes.{Bytes, codes}
use yscript.Value.{Ptr, Value, bool, nil, number, obj}
use yscript.Table.{◌>>=◌}
use yscript.Memory.{
  Obj, bound_method, class, closure, function, instance_of, native, string, upvalue, ObjFunction,
}
use yscript.Interp.{as_function, function_of}
use yscript.Interp.Calls.{as_class}

abbrev pub text_of : Option Obj → Option Bytes
text_of (some (string s)) = some s.chars
text_of _ = none

module _ (objects : List Obj) where
  abbrev pub text_at : Ptr → Option Bytes
  text_at p = text_of (get_elem? objects p)

  unfoldable pub print_function : ObjFunction → Option Bytes
  print_function f = elim f.name [
    | none ↦ some (codes "<script>")
    | some p ↦ do name ← text_at p; some (codes "<fn " ++ name ++ codes ">")
  ]

  unfoldable pub print_object : Obj → Option Bytes
  unfolding print_function function_of
  print_object (bound_method receiver method) = do f ← function_of objects method; print_function f
  print_object (class name methods) = text_at name
  print_object (closure f upvalues) = do g ← as_function (get_elem? objects f); print_function g
  print_object (function f) = print_function f
  print_object (instance_of klass fields) = do
    o ← get_elem? objects klass
    (class_name, _) ← as_class o
    name ← text_at class_name
    some (name ++ codes " instance")
  print_object (native n) = some (codes "<native fn>")
  print_object (string s) = some s.chars
  print_object (upvalue location closed next) = some (codes "upvalue")

  unfoldable pub print_value : (double_text : ℕ → Bytes) → Value → Option Bytes
  unfolding print_object
  print_value double_text (bool b) = some (codes (if b then "true" else "false"))
  print_value double_text nil = some (codes "nil")
  print_value double_text (number n) = some (double_text n)
  print_value double_text (obj p) = do o ← get_elem? objects p; print_object o
