-- ===== src/Compiler/Expressions.antt =====
-- Expressions (`argumentList` to `parsePrecedence` of src/compiler/parser.cc).
use yscript.Prelude.{
  ℕ, zero, suc, ◌+◌, ◌-◌, ◌%◌, List, [], ◌∷◌, Bool, false, not, none, some, ◌==◌, leb,
  if◌then◌else◌, take, drop,
}
use yscript.Prelude.Bytes.{codes}
use yscript.Value.{obj, number}
use yscript.Memory.{copy_string}
use yscript.OpCode.{OpCode}
use yscript.Scanner.{Token, TokenType}
use yscript.Compiler.{M, ◌>>=◌, ◌>>◌, pure, fail, get, when, in_memory}
use yscript.Compiler.Emit.{
  error, advance, check, consume, match, emit_raw, emit_byte, emit_bytes, emit_two, emit_jump,
  patch_jump, emit_constant,
}
use yscript.Compiler.Scope.{identifier_constant}
use yscript.Compiler.Rules.{
  ParseFn, grouping, call, unary, binary, dot, variable, literal, and_, or_, super_, this_,
  get_rule, prec_assignment, prec_and, prec_or, prec_unary,
}
use yscript.Compiler.Grammar.{Grammar, while, previous_type, synthetic_token, resolve}

module _ (g : Grammar) where
  unfoldable pub expression : M (Unit {0})
  expression = g.parse_precedence prec_assignment

  -- The `do` loop of `argumentList`; the count is a byte.
  unfoldable pub argument_loop : ℕ → ℕ → M ℕ
  unfolding expression error match
  argument_loop zero count = fail
  argument_loop (suc f) count =
      let further = argument_loop f ((count + 1) % 256) in
      do
        expression
        when (count == 255) (error (codes "Can't have more than 255 arguments."))
        more ← match TokenType.comma
        if more then further else pure ((count + 1) % 256)

  unfoldable pub argument_list : M ℕ
  unfolding argument_loop check consume
  argument_list = do
    s ← get
    count ← if check TokenType.right_paren s then pure 0 else argument_loop g.fuel 0
    consume TokenType.right_paren (codes "Expect ')' after arguments.")
    pure count

  unfoldable pub parse_and : M (Unit {0})
  unfolding emit_jump emit_byte patch_jump
  parse_and = do
    end_jump ← emit_jump OpCode.op_jump_if_false
    emit_byte OpCode.op_pop
    g.parse_precedence prec_and
    patch_jump end_jump

  unfoldable pub parse_or : M (Unit {0})
  unfolding emit_jump emit_byte patch_jump
  parse_or = do
    else_jump ← emit_jump OpCode.op_jump_if_false
    end_jump ← emit_jump OpCode.op_jump
    patch_jump else_jump
    emit_byte OpCode.op_pop
    g.parse_precedence prec_or
    patch_jump end_jump

  -- `YSCRIPT_UNREACHABLE()` at a token that is no binary operator.
  unfoldable pub parse_binary : M (Unit {0})
  unfolding get_rule emit_byte emit_two
  parse_binary = do
    operator ← previous_type
    g.parse_precedence ((get_rule operator).precedence + 1)
    elim operator [
      | TokenType.bang_equal ↦ emit_two OpCode.op_equal OpCode.op_not
      | TokenType.equal_equal ↦ emit_byte OpCode.op_equal
      | TokenType.greater ↦ emit_byte OpCode.op_greater
      | TokenType.greater_equal ↦ emit_two OpCode.op_less OpCode.op_not
      | TokenType.less ↦ emit_byte OpCode.op_less
      | TokenType.less_equal ↦ emit_two OpCode.op_greater OpCode.op_not
      | TokenType.plus ↦ emit_byte OpCode.op_add
      | TokenType.minus ↦ emit_byte OpCode.op_subtract
      | TokenType.star ↦ emit_byte OpCode.op_multiply
      | TokenType.slash ↦ emit_byte OpCode.op_divide
      | _ ↦ fail
    ]

  unfoldable pub parse_call : M (Unit {0})
  unfolding argument_list emit_bytes
  parse_call = do count ← argument_list; emit_bytes OpCode.op_call count

  -- `canAssign && match(type)`
  unfoldable pub match_if : Bool → TokenType → M Bool
  unfolding match
  match_if can_assign type = if can_assign then match type else pure false

  unfoldable pub parse_dot : Bool → M (Unit {0})
  unfolding consume identifier_constant match_if expression emit_bytes argument_list match
  parse_dot can_assign = do
    consume TokenType.identifier (codes "Expect property name after '.'.")
    s ← get
    name ← identifier_constant s.previous
    assigns ← match_if can_assign TokenType.equal
    if assigns then expression >> emit_bytes OpCode.op_set_property name else (do
      calls ← match TokenType.left_paren
      if calls
          then (do count ← argument_list; emit_bytes OpCode.op_invoke name; emit_raw count)
          else emit_bytes OpCode.op_get_property name)

  unfoldable pub parse_literal : M (Unit {0})
  unfolding emit_byte
  parse_literal = do
    type ← previous_type
    elim type [
      | TokenType.false_token ↦ emit_byte OpCode.op_false
      | TokenType.nil ↦ emit_byte OpCode.op_nil
      | TokenType.true_token ↦ emit_byte OpCode.op_true
      | _ ↦ pure tt
    ]

  unfoldable pub parse_grouping : M (Unit {0})
  unfolding expression consume
  parse_grouping = do
    expression
    consume TokenType.right_paren (codes "Expect ')' after expression.")

  unfoldable pub parse_number : M (Unit {0})
  unfolding emit_constant
  parse_number = do s ← get; emit_constant (number (g.strtod s.previous.start))

  -- The text between the quotes.
  unfoldable pub parse_string : M (Unit {0})
  unfolding copy_string emit_constant
  parse_string = do
    s ← get
    p ← in_memory (copy_string (take (s.previous.length - 2) (drop 1 s.previous.start)))
    emit_constant (obj p)

  unfoldable pub named_variable : Token → Bool → M (Unit {0})
  unfolding resolve match_if expression emit_bytes
  named_variable name can_assign = do
    (get_op, set_op, arg) ← resolve name
    assigns ← match_if can_assign TokenType.equal
    if assigns then expression >> emit_bytes set_op (arg % 256) else emit_bytes get_op (arg % 256)

  unfoldable pub parse_variable_use : Bool → M (Unit {0})
  unfolding named_variable
  parse_variable_use can_assign = do s ← get; named_variable s.previous can_assign

  unfoldable pub check_super : List Bool → M (Unit {0})
  unfolding error
  check_super [] = error (codes "Can't use 'super' outside of a class.")
  check_super (has_superclass ∷ _) =
      when (not has_superclass) (error (codes "Can't use 'super' in a class with no superclass."))

  unfoldable pub parse_super : M (Unit {0})
  unfolding check_super consume identifier_constant named_variable match argument_list emit_bytes
      synthetic_token
  parse_super = do
    s₀ ← get
    check_super s₀.classes
    consume TokenType.dot (codes "Expect '.' after 'super'.")
    consume TokenType.identifier (codes "Expect superclass method name.")
    s ← get
    name ← identifier_constant s.previous
    named_variable (synthetic_token (codes "this")) false
    calls ← match TokenType.left_paren
    if calls
        then (do
          count ← argument_list
          named_variable (synthetic_token (codes "super")) false
          emit_bytes OpCode.op_super_invoke name
          emit_raw count)
        else (do
          named_variable (synthetic_token (codes "super")) false
          emit_bytes OpCode.op_get_super name)

  unfoldable pub parse_this : M (Unit {0})
  unfolding error parse_variable_use
  parse_this = do
    s ← get
    elim s.classes [
      | [] ↦ error (codes "Can't use 'this' outside of a class.")
      | _ ∷ _ ↦ parse_variable_use false
    ]

  unfoldable pub parse_unary : M (Unit {0})
  unfolding emit_byte
  parse_unary = do
    operator ← previous_type
    g.parse_precedence prec_unary
    elim operator [
      | TokenType.bang ↦ emit_byte OpCode.op_not
      | TokenType.minus ↦ emit_byte OpCode.op_negate
      | _ ↦ fail
    ]

  unfoldable pub run_rule : ParseFn → Bool → M (Unit {0})
  unfolding parse_grouping parse_call parse_unary parse_binary parse_dot parse_variable_use
      parse_string parse_number parse_literal parse_and parse_or parse_super parse_this
  run_rule grouping can_assign = parse_grouping
  run_rule call can_assign = parse_call
  run_rule unary can_assign = parse_unary
  run_rule binary can_assign = parse_binary
  run_rule dot can_assign = parse_dot can_assign
  run_rule variable can_assign = parse_variable_use can_assign
  run_rule ParseFn.string can_assign = parse_string
  run_rule ParseFn.number can_assign = parse_number
  run_rule literal can_assign = parse_literal
  run_rule and_ can_assign = parse_and
  run_rule or_ can_assign = parse_or
  run_rule super_ can_assign = parse_super
  run_rule this_ can_assign = parse_this

  -- `precedence <= getRule(parser.current.type)->precedence`
  abbrev pub binds : ℕ → M Bool
  binds precedence = do s ← get; pure (leb precedence (get_rule s.current.type).precedence)

  -- One round of the loop of `parsePrecedence`; a null infix rule would be called.
  unfoldable pub parse_infix : Bool → M (Unit {0})
  unfolding advance get_rule run_rule
  parse_infix can_assign = do
    advance
    type ← previous_type
    elim (get_rule type).infix_fn [ none ↦ fail | some rule ↦ run_rule rule can_assign ]

  unfoldable pub parse_precedence : ℕ → M (Unit {0})
  unfolding advance get_rule error run_rule while parse_infix match_if
  parse_precedence precedence = do
    advance
    type ← previous_type
    let can_assign = leb precedence prec_assignment
    elim (get_rule type).prefix [
      | none ↦ error (codes "Expect expression.")
      | some rule ↦ do
        run_rule rule can_assign
        while g.fuel (binds precedence) (parse_infix can_assign)
        invalid ← match_if can_assign TokenType.equal
        when invalid (error (codes "Invalid assignment target."))
    ]
