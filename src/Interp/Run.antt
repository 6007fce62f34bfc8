-- ===== src/Interp/Run.antt =====
-- The instructions of the interpreter (`run` and `interpret` of src/vm/interp/interp.cc).
use yscript.Prelude.{
  ℕ, zero, suc, ◌+◌, ◌-◌, [], ◌∷◌, ◌++◌, Bool, true, false, none, some, leb, if◌then◌else◌, length,
}
use yscript.Value.{bool, nil, number, obj, values_equal}
use yscript.OpCode.{OpCode, decode}
use yscript.Memory.{new_class}
use yscript.Interp.{
  Machine, no_number, M, ◌>>=◌, ◌>>◌, pure, halt, get, modify, given, in_memory, object_at, push,
  pop, peek, is_falsey, runtime_error,
}
use yscript.Interp.Upvalues.{load_slot, store_slot, close_upvalues}
use yscript.Interp.Calls.{as_obj, call_value, invoke_from_class, invoke, bind_method, define_method}
use yscript.Interp.Operands.{
  current_frame, set_ip, read_byte, read_offset, read_constant, read_object, upvalue_in,
  load_upvalue, store_upvalue, as_number, binary_op, add,
}
use yscript.Interp.Instructions.{
  get_global, define_global, set_global, get_property, set_property, make_closure, inherit,
  return_value,
}

-- The cases of the `switch`; `true` says that the script has ended.
unfoldable pub jump : M (Unit {0})
unfolding read_offset current_frame set_ip
jump = do offset ← read_offset; frame ← current_frame; set_ip (frame.ip + offset)

unfoldable pub jump_if_false : M (Unit {0})
unfolding read_offset peek is_falsey current_frame set_ip
jump_if_false = do
  offset ← read_offset
  value ← peek 0
  frame ← current_frame
  if is_falsey value then set_ip (frame.ip + offset) else pure tt

-- A jump to before the code has nowhere to go.
unfoldable pub loop_back : M (Unit {0})
unfolding read_offset current_frame set_ip
loop_back = do
  offset ← read_offset
  frame ← current_frame
  if leb offset frame.ip then set_ip (frame.ip - offset) else halt

unfoldable pub set_local : M (Unit {0})
unfolding read_byte peek current_frame store_slot
set_local = do
  i ← read_byte
  value ← peek 0
  frame ← current_frame
  store_slot (frame.slots + i) value

unfoldable pub get_local : M (Unit {0})
unfolding read_byte current_frame load_slot push
get_local = do i ← read_byte; frame ← current_frame; value ← load_slot (frame.slots + i); push value

unfoldable pub get_upvalue : M (Unit {0})
unfolding read_byte upvalue_in load_slot push
get_upvalue = do
  i ← read_byte
  p ← upvalue_in i
  o ← object_at p
  value ← load_upvalue o
  push value

unfoldable pub set_upvalue : M (Unit {0})
unfolding read_byte upvalue_in peek store_slot
set_upvalue = do
  i ← read_byte
  p ← upvalue_in i
  value ← peek 0
  o ← object_at p
  store_upvalue p value o

unfoldable pub get_super : M (Unit {0})
unfolding read_object pop bind_method
get_super = do name ← read_object; value ← pop; klass ← given (as_obj value); bind_method klass name

unfoldable pub equal : Machine → M (Unit {0})
unfolding pop push values_equal
equal machine = do b ← pop; a ← pop; push (bool (values_equal machine.double_eq a b))

unfoldable pub negate : Machine → M (Unit {0})
unfolding peek pop push runtime_error
negate machine = do
  value ← peek 0
  elim (as_number value) [
    | none ↦ runtime_error no_number
    | some n ↦ do _ ← pop; push (number (machine.double_neg n))
  ]

unfoldable pub print : M (Unit {0})
unfolding pop
print = do value ← pop; modify (λ vm. record vm { printed = vm.printed ++ value ∷ [] })

unfoldable pub call_callee : Machine → M (Unit {0})
unfolding read_byte peek call_value
call_callee machine = do
  arg_count ← read_byte
  callee ← peek arg_count
  call_value machine callee arg_count

unfoldable pub invoke_method : Machine → M (Unit {0})
unfolding read_object read_byte invoke
invoke_method machine = do name ← read_object; arg_count ← read_byte; invoke machine name arg_count

unfoldable pub invoke_super : M (Unit {0})
unfolding read_object read_byte pop invoke_from_class
invoke_super = do
  name ← read_object
  arg_count ← read_byte
  value ← pop
  klass ← given (as_obj value)
  invoke_from_class klass name arg_count

unfoldable pub close_top : M (Unit {0})
unfolding close_upvalues pop
close_top = do vm ← get; close_upvalues (length vm.stack - 1); _ ← pop; pure tt

unfoldable pub make_class : M (Unit {0})
unfolding read_object new_class push
make_class = do name ← read_object; p ← in_memory (new_class name); push (obj p)

unfoldable pub pop_one : M (Unit {0})
unfolding pop
pop_one = do _ ← pop; pure tt

unfoldable pub negation : M (Unit {0})
unfolding pop push is_falsey
negation = do value ← pop; push (bool (is_falsey value))

unfoldable pub push_constant : M (Unit {0})
unfolding read_constant push
push_constant = do value ← read_constant; push value

abbrev goes_on : M (Unit {0}) → M Bool
goes_on m = do _ ← m; pure false

unfoldable pub execute : Machine → OpCode → M Bool
unfolding push_constant push pop_one get_local set_local get_global define_global set_global
    get_upvalue set_upvalue get_property set_property get_super equal binary_op add negation negate
    print jump jump_if_false loop_back call_callee invoke_method invoke_super make_closure close_top
    return_value make_class inherit read_object define_method
execute machine OpCode.op_constant = goes_on push_constant
execute machine OpCode.op_nil = goes_on (push nil)
execute machine OpCode.op_true = goes_on (push (bool true))
execute machine OpCode.op_false = goes_on (push (bool false))
execute machine OpCode.op_pop = goes_on pop_one
execute machine OpCode.op_get_local = goes_on get_local
execute machine OpCode.op_set_local = goes_on set_local
execute machine OpCode.op_get_global = goes_on get_global
execute machine OpCode.op_define_global = goes_on define_global
execute machine OpCode.op_set_global = goes_on set_global
execute machine OpCode.op_get_upvalue = goes_on get_upvalue
execute machine OpCode.op_set_upvalue = goes_on set_upvalue
execute machine OpCode.op_get_property = goes_on get_property
execute machine OpCode.op_set_property = goes_on set_property
execute machine OpCode.op_get_super = goes_on get_super
execute machine OpCode.op_equal = goes_on (equal machine)
execute machine OpCode.op_greater = goes_on (binary_op λ a b. bool (machine.double_gt a b))
execute machine OpCode.op_less = goes_on (binary_op λ a b. bool (machine.double_lt a b))
execute machine OpCode.op_add = goes_on (add machine)
execute machine OpCode.op_subtract = goes_on (binary_op λ a b. number (machine.double_sub a b))
execute machine OpCode.op_multiply = goes_on (binary_op λ a b. number (machine.double_mul a b))
execute machine OpCode.op_divide = goes_on (binary_op λ a b. number (machine.double_div a b))
execute machine OpCode.op_not = goes_on negation
execute machine OpCode.op_negate = goes_on (negate machine)
execute machine OpCode.op_print = goes_on print
execute machine OpCode.op_jump = goes_on jump
execute machine OpCode.op_jump_if_false = goes_on jump_if_false
execute machine OpCode.op_loop = goes_on loop_back
execute machine OpCode.op_call = goes_on (call_callee machine)
execute machine OpCode.op_invoke = goes_on (invoke_method machine)
execute machine OpCode.op_super_invoke = goes_on invoke_super
execute machine OpCode.op_closure = goes_on make_closure
execute machine OpCode.op_close_upvalue = goes_on close_top
execute machine OpCode.op_class = goes_on make_class
execute machine OpCode.op_inherit = goes_on inherit
execute machine OpCode.op_method = goes_on (do name ← read_object; define_method name)
execute machine OpCode.op_return = return_value

-- One round of the loop of `run`; a byte that is no instruction does nothing.
unfoldable pub step : Machine → M Bool
unfolding read_byte decode execute
step machine = do
  byte ← read_byte
  elim (decode byte) [ none ↦ pure false | some op ↦ execute machine op ]

-- The loop of `run`, for at most as many instructions as there are rounds: the answer is `false` where it would go on.
unfoldable pub run : Machine → ℕ → M Bool
unfolding step
run machine zero = pure false
run machine (suc rounds) = do
  ended ← step machine
  let again = run machine rounds
  if ended then pure true else again
