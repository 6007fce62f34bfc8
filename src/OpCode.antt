-- ===== src/OpCode.antt =====
-- The opcodes (src/common/opcode.h), and the bytes that the enumeration gives them.
use yscript.Prelude.{ℕ, List, [], ◌∷◌, Option, some, ◌≡◌, refl, get_elem?}

pub data OpCode : Type 0 where
  op_constant op_nil op_true op_false op_pop op_get_local op_set_local op_get_global : OpCode
  op_define_global op_set_global op_get_upvalue op_set_upvalue op_get_property : OpCode
  op_set_property op_get_super op_equal op_greater op_less op_add op_subtract op_multiply : OpCode
  op_divide op_not op_negate op_print op_jump op_jump_if_false op_loop op_call op_invoke : OpCode
  op_super_invoke op_closure op_close_upvalue op_return op_class op_inherit op_method : OpCode

unfoldable pub byte_of : OpCode → ℕ
byte_of op_constant = 0
byte_of op_nil = 1
byte_of op_true = 2
byte_of op_false = 3
byte_of op_pop = 4
byte_of op_get_local = 5
byte_of op_set_local = 6
byte_of op_get_global = 7
byte_of op_define_global = 8
byte_of op_set_global = 9
byte_of op_get_upvalue = 10
byte_of op_set_upvalue = 11
byte_of op_get_property = 12
byte_of op_set_property = 13
byte_of op_get_super = 14
byte_of op_equal = 15
byte_of op_greater = 16
byte_of op_less = 17
byte_of op_add = 18
byte_of op_subtract = 19
byte_of op_multiply = 20
byte_of op_divide = 21
byte_of op_not = 22
byte_of op_negate = 23
byte_of op_print = 24
byte_of op_jump = 25
byte_of op_jump_if_false = 26
byte_of op_loop = 27
byte_of op_call = 28
byte_of op_invoke = 29
byte_of op_super_invoke = 30
byte_of op_closure = 31
byte_of op_close_upvalue = 32
byte_of op_return = 33
byte_of op_class = 34
byte_of op_inherit = 35
byte_of op_method = 36

-- The labels of the `switch` over the byte of an instruction.
abbrev pub all_opcodes : List OpCode
all_opcodes =
    op_constant ∷ op_nil ∷ op_true ∷ op_false ∷ op_pop ∷ op_get_local ∷ op_set_local ∷ op_get_global
    ∷ op_define_global ∷ op_set_global ∷ op_get_upvalue ∷ op_set_upvalue ∷ op_get_property
    ∷ op_set_property ∷ op_get_super ∷ op_equal ∷ op_greater ∷ op_less ∷ op_add ∷ op_subtract
    ∷ op_multiply ∷ op_divide ∷ op_not ∷ op_negate ∷ op_print ∷ op_jump ∷ op_jump_if_false ∷ op_loop
    ∷ op_call ∷ op_invoke ∷ op_super_invoke ∷ op_closure ∷ op_close_upvalue ∷ op_return ∷ op_class
    ∷ op_inherit ∷ op_method ∷ []

unfoldable pub decode : ℕ → Option OpCode
decode byte = get_elem? all_opcodes byte

pub decode-byte_of : (op : OpCode) → decode (byte_of op) ≡ some op
unfolding decode byte_of
decode-byte_of op_constant = refl
decode-byte_of op_nil = refl
decode-byte_of op_true = refl
decode-byte_of op_false = refl
decode-byte_of op_pop = refl
decode-byte_of op_get_local = refl
decode-byte_of op_set_local = refl
decode-byte_of op_get_global = refl
decode-byte_of op_define_global = refl
decode-byte_of op_set_global = refl
decode-byte_of op_get_upvalue = refl
decode-byte_of op_set_upvalue = refl
decode-byte_of op_get_property = refl
decode-byte_of op_set_property = refl
decode-byte_of op_get_super = refl
decode-byte_of op_equal = refl
decode-byte_of op_greater = refl
decode-byte_of op_less = refl
decode-byte_of op_add = refl
decode-byte_of op_subtract = refl
decode-byte_of op_multiply = refl
decode-byte_of op_divide = refl
decode-byte_of op_not = refl
decode-byte_of op_negate = refl
decode-byte_of op_print = refl
decode-byte_of op_jump = refl
decode-byte_of op_jump_if_false = refl
decode-byte_of op_loop = refl
decode-byte_of op_call = refl
decode-byte_of op_invoke = refl
decode-byte_of op_super_invoke = refl
decode-byte_of op_closure = refl
decode-byte_of op_close_upvalue = refl
decode-byte_of op_return = refl
decode-byte_of op_class = refl
decode-byte_of op_inherit = refl
decode-byte_of op_method = refl
