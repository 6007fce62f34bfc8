-- ===== src/Compiler/Functions.antt =====
-- Functions and classes (`block` to `funDeclaration` of src/compiler/parser.cc).
use yscript.Prelude.{
  ℕ, suc, ◌+◌, List, [], ◌∷◌, Bool, true, false, not, ◌&&◌, ◌==◌, ltb, if◌then◌else◌,
}
use yscript.Prelude.Bytes.{codes, bytes_eq}
use yscript.Value.{obj}
use yscript.OpCode
use yscript.Scanner.{Token, TokenType}
use yscript.Compiler.{
  Upvalue, FunctionType, type_function, type_initializer, type_method, M, ◌>>=◌, ◌>>◌, pure, fail,
  get, modify, when, current_function, set_function,
}
use yscript.Compiler.Emit.{
  text_of, error, error_at_current, check, consume, match, emit_raw, emit_byte, emit_bytes,
  make_constant, init_compiler, end_compiler,
}
use yscript.Compiler.Scope.{
  begin_scope, end_scope, identifier_constant, identifiers_equal, add_local, declare_variable,
  parse_variable, mark_initialized, define_variable,
}
use yscript.Compiler.Expressions.{parse_variable_use, named_variable}
use yscript.Compiler.Grammar.{Grammar, while, synthetic_token}

abbrev pub in_braces : M Bool
in_braces = do s ← get; pure (not (check TokenType.right_brace s) && not (check TokenType.eof s))

-- The operand bytes of `OP_CLOSURE` behind the function.
unfoldable pub emit_upvalues : List Upvalue → M (Unit {0})
unfolding emit_raw
emit_upvalues [] = pure tt
emit_upvalues (u ∷ us) = do
  emit_raw (if u.is_local then 1 else 0)
  emit_raw u.index
  emit_upvalues us

module _ (g : Grammar) where
  unfoldable pub block : M (Unit {0})
  unfolding while check consume
  block = do
    while g.fuel in_braces g.declaration
    consume TokenType.right_brace (codes "Expect '}' after block.")

  -- The `do` loop over the parameters.
  unfoldable pub parameter_loop : ℕ → M (Unit {0})
  unfolding current_function set_function error_at_current parse_variable define_variable match
  parameter_loop ℕ.zero = fail
  parameter_loop (suc f) =
      let further = parameter_loop f in
      do
        fn ← current_function
        set_function (record fn { arity = fn.arity + 1 })
        when (ltb 255 (fn.arity + 1))
            (error_at_current (codes "Can't have more than 255 parameters."))
        constant ← parse_variable (codes "Expect parameter name.")
        define_variable constant
        more ← match TokenType.comma
        if more then further else pure tt

  unfoldable pub function_body : FunctionType → M (Unit {0})
  unfolding init_compiler begin_scope consume check parameter_loop block end_compiler make_constant
      emit_bytes emit_upvalues
  function_body type = do
    init_compiler type
    begin_scope
    consume TokenType.left_paren (codes "Expect '(' after function name.")
    s ← get
    when (not (check TokenType.right_paren s)) (parameter_loop g.fuel)
    consume TokenType.right_paren (codes "Expect ')' after parameters.")
    consume TokenType.left_brace (codes "Expect '{' before function body.")
    block
    c ← end_compiler
    constant ← make_constant (obj c.function)
    emit_bytes OpCode.op_closure constant
    emit_upvalues c.upvalues

  unfoldable pub method : M (Unit {0})
  unfolding consume identifier_constant function_body emit_bytes
  method = do
    consume TokenType.identifier (codes "Expect method name.")
    s ← get
    constant ← identifier_constant s.previous
    let is_init = (s.previous.length == 4) && bytes_eq (text_of s.previous) (codes "init")
    function_body (if is_init then type_initializer else type_method)
    emit_bytes OpCode.op_method constant

  -- The part of `classDeclaration` for `: Superclass`.
  unfoldable pub superclass : Token → M (Unit {0})
  unfolding consume parse_variable_use identifiers_equal error begin_scope add_local synthetic_token
      define_variable named_variable emit_byte
  superclass class_name = do
    consume TokenType.identifier (codes "Expect superclass name.")
    parse_variable_use g false
    s ← get
    when (identifiers_equal class_name s.previous)
        (error (codes "A class can't inherit from itself."))
    begin_scope
    add_local (synthetic_token (codes "super"))
    define_variable 0
    named_variable g class_name false
    emit_byte OpCode.op_inherit
    modify (λ s. record s { classes = elim s.classes [ [] ↦ [] | _ ∷ cs ↦ true ∷ cs ] })

  unfoldable pub class_declaration : M (Unit {0})
  unfolding consume identifier_constant declare_variable emit_bytes define_variable match superclass
      named_variable while check method emit_byte end_scope
  class_declaration = do
    consume TokenType.identifier (codes "Expect class name.")
    s ← get
    let class_name = s.previous
    name_constant ← identifier_constant class_name
    declare_variable
    emit_bytes OpCode.op_class name_constant
    define_variable name_constant
    modify (λ s. record s { classes = false ∷ s.classes })
    inherits ← match TokenType.colon
    when inherits (superclass class_name)
    named_variable g class_name false
    consume TokenType.left_brace (codes "Expect '{' before class body.")
    while g.fuel in_braces method
    consume TokenType.right_brace (codes "Expect '}' after class body.")
    emit_byte OpCode.op_pop
    s₁ ← get
    elim s₁.classes [ [] ↦ fail | has_superclass ∷ _ ↦ when has_superclass end_scope ]
    modify (λ s. record s { classes = elim s.classes [ [] ↦ [] | _ ∷ cs ↦ cs ] })

  unfoldable pub fun_declaration : M (Unit {0})
  unfolding parse_variable mark_initialized function_body define_variable
  fun_declaration = do
    global ← parse_variable (codes "Expect function name.")
    mark_initialized
    function_body type_function
    define_variable global
