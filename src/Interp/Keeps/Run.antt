-- ===== src/Interp/Keeps/Run.antt =====
-- The instructions and `run` of src/vm/interp/interp.cc.
use yscript.Prelude.{
  ℕ, zero, suc, ◌-◌, refl, true, false, arith, ◌==◌, leb, length, length-drop, drop,
}
use yscript.Value.{Ptr}
use yscript.OpCode.{OpCode, decode}
use yscript.Interp.{
  Machine, ◌>>=◌, ◌>>◌, get, modify, pop, push, pure, halt, peek, runtime_error, no_number,
}
use yscript.Interp.Upvalues.{close_upvalues}
use yscript.Interp.Operands.{current_frame, read_byte, as_number}
use yscript.Interp.Instructions.{return_value}
use yscript.Interp.Run.{
  jump, jump_if_false, loop_back, set_local, get_local, get_upvalue, set_upvalue, get_super, equal,
  negate, print, call_callee, invoke_method, invoke_super, close_top, make_class, pop_one, negation,
  push_constant, execute, step, run,
}
use yscript.Interp.Interpret.{start_script}
use yscript.Interp.Keeps.{
  Keeps, Keeps-modify, Keeps-option, Keeps-bind, Keeps-if, Keeps-get, Keeps-pop, Keeps-halt,
}
use yscript.Interp.Keeps.Calls.{
  Keeps-bind_method, Keeps-call, Keeps-call_value, Keeps-invoke, Keeps-invoke_from_class,
  Keeps-define_method,
}
use yscript.Interp.Keeps.Operands.{operands, Keeps-current_frame, Keeps-binary_op, Keeps-add}
use yscript.Interp.Keeps.Objects.{
  Keeps-close_upvalues, Keeps-get_global, Keeps-define_global, Keeps-set_global, Keeps-get_property,
  Keeps-set_property, Keeps-make_closure, Keeps-inherit,
}

ruleset rules = (
  operands, Keeps-bind_method, Keeps-call, Keeps-call_value, Keeps-invoke, Keeps-invoke_from_class,
  Keeps-define_method, Keeps-binary_op, Keeps-add, Keeps-close_upvalues, Keeps-get_global,
  Keeps-define_global, Keeps-set_global, Keeps-get_property, Keeps-set_property, Keeps-make_closure,
  Keeps-inherit,
)

Keeps-return_value : Keeps return_value
unfolding return_value
Keeps-return_value = Keeps-bind pop _ Keeps-pop (λ result.
    Keeps-bind current_frame _ Keeps-current_frame (λ frame.
      Keeps-bind (close_upvalues frame.slots) _ (Keeps-close_upvalues frame.slots) (λ u.
        Keeps-bind (modify (λ vm. record vm { frames = drop 1 vm.frames })) _
          (Keeps-modify _
            (λ vm. (omega (arith, length-drop 1 vm.frames), omega arith, refl, refl, refl)))
          (λ u'. Keeps-bind get _ Keeps-get (λ vm.
            Keeps-if (length vm.frames == 0) (do _ ← pop; pure true) _ (search rules)
              (Keeps-if (leb frame.slots (length vm.stack)) _ halt
                (Keeps-bind
                  (modify
                    (λ vm'. record vm' { stack = drop (length vm'.stack - frame.slots) vm'.stack }))
                  (λ _. do push result; pure false)
                  (Keeps-modify _ (λ vm'. (
                    omega arith,
                    omega (arith, length-drop (length vm'.stack - frame.slots) vm'.stack),
                    refl,
                    refl,
                    refl,
                  )))
                  (λ u''. search rules))
                Keeps-halt))))))

Keeps-jump : Keeps jump
unfolding jump
Keeps-jump = search rules

Keeps-jump_if_false : Keeps jump_if_false
unfolding jump_if_false
Keeps-jump_if_false = search rules depth 20

Keeps-loop_back : Keeps loop_back
unfolding loop_back
Keeps-loop_back = search rules depth 20

Keeps-negate : (machine : Machine) → Keeps (negate machine)
unfolding negate
Keeps-negate machine = Keeps-bind (peek 0) _ (search rules) (λ value.
    Keeps-option (as_number value) (runtime_error no_number) _ (search rules) (λ n. search rules))

Keeps-print : Keeps print
unfolding print
Keeps-print = search rules

Keeps-close_top : Keeps close_top
unfolding close_top
Keeps-close_top = search rules

ruleset instructions = (
  rules, Keeps-return_value, Keeps-jump, Keeps-jump_if_false, Keeps-loop_back, Keeps-negate,
  Keeps-print, Keeps-close_top,
)

pub Keeps-execute : (machine : Machine) (op : OpCode) → Keeps (execute machine op)
unfolding execute push_constant pop_one get_local set_local get_upvalue set_upvalue get_super equal
    negation call_callee invoke_method invoke_super make_class
Keeps-execute machine OpCode.op_constant = search instructions depth 30
Keeps-execute machine OpCode.op_nil = search instructions depth 30
Keeps-execute machine OpCode.op_true = search instructions depth 30
Keeps-execute machine OpCode.op_false = search instructions depth 30
Keeps-execute machine OpCode.op_pop = search instructions depth 30
Keeps-execute machine OpCode.op_get_local = search instructions depth 30
Keeps-execute machine OpCode.op_set_local = search instructions depth 30
Keeps-execute machine OpCode.op_get_global = search instructions depth 30
Keeps-execute machine OpCode.op_define_global = search instructions depth 30
Keeps-execute machine OpCode.op_set_global = search instructions depth 30
Keeps-execute machine OpCode.op_get_upvalue = search instructions depth 30
Keeps-execute machine OpCode.op_set_upvalue = search instructions depth 30
Keeps-execute machine OpCode.op_get_property = search instructions depth 30
Keeps-execute machine OpCode.op_set_property = search instructions depth 30
Keeps-execute machine OpCode.op_get_super = search instructions depth 30
Keeps-execute machine OpCode.op_equal = search instructions depth 30
Keeps-execute machine OpCode.op_greater = search instructions depth 30
Keeps-execute machine OpCode.op_less = search instructions depth 30
Keeps-execute machine OpCode.op_add = search instructions depth 30
Keeps-execute machine OpCode.op_subtract = search instructions depth 30
Keeps-execute machine OpCode.op_multiply = search instructions depth 30
Keeps-execute machine OpCode.op_divide = search instructions depth 30
Keeps-execute machine OpCode.op_not = search instructions depth 30
Keeps-execute machine OpCode.op_negate = search instructions depth 30
Keeps-execute machine OpCode.op_print = search instructions depth 30
Keeps-execute machine OpCode.op_jump = search instructions depth 30
Keeps-execute machine OpCode.op_jump_if_false = search instructions depth 30
Keeps-execute machine OpCode.op_loop = search instructions depth 30
Keeps-execute machine OpCode.op_call = search instructions depth 30
Keeps-execute machine OpCode.op_invoke = search instructions depth 30
Keeps-execute machine OpCode.op_super_invoke = search instructions depth 30
Keeps-execute machine OpCode.op_closure = search instructions depth 30
Keeps-execute machine OpCode.op_close_upvalue = search instructions depth 30
Keeps-execute machine OpCode.op_class = search instructions depth 30
Keeps-execute machine OpCode.op_inherit = search instructions depth 30
Keeps-execute machine OpCode.op_method = search instructions depth 30
Keeps-execute machine OpCode.op_return = search instructions depth 30

pub Keeps-step : (machine : Machine) → Keeps (step machine)
unfolding step
Keeps-step machine = Keeps-bind read_byte _ (search rules) (λ byte.
    Keeps-option (decode byte) (pure false) (execute machine) (search rules)
      (Keeps-execute machine))

pub Keeps-run : (machine : Machine) (rounds : ℕ) → Keeps (run machine rounds)
unfolding run
Keeps-run machine zero = search rules
Keeps-run machine (suc rounds) =
    let rest = Keeps-run machine rounds in
    Keeps-bind (step machine) _ (Keeps-step machine) (λ ended. search rules)

pub Keeps-start_script : (p : Ptr) → Keeps (start_script p)
unfolding start_script
Keeps-start_script p = search rules depth 30
