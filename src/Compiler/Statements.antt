-- ===== src/Compiler/Statements.antt =====
-- Declarations and statements (`varDeclaration` to `statement` of src/compiler/parser.cc).
use yscript.Prelude.{ℕ, Bool, false, not, ◌&&◌, ◌||◌, Option, none, some, if◌then◌else◌}
use yscript.Prelude.Bytes.{codes}
use yscript.OpCode
use yscript.Scanner.{TokenType, is_type}
use yscript.Compiler.{
  type_initializer, type_script, M, ◌>>=◌, ◌>>◌, pure, get, modify, when, current_compiler,
}
use yscript.Compiler.Emit.{
  error, advance, consume, match, emit_byte, code_count, emit_loop, emit_jump, patch_jump,
  emit_return,
}
use yscript.Compiler.Scope.{begin_scope, end_scope, parse_variable, define_variable}
use yscript.Compiler.Expressions.{expression}
use yscript.Compiler.Grammar.{Grammar, while}
use yscript.Compiler.Functions.{block, class_declaration, fun_declaration}

-- `!check(TOKEN_RIGHT_BRACE) && !check(TOKEN_EOF)`
module _ (g : Grammar) where
  unfoldable pub var_declaration : M (Unit {0})
  unfolding parse_variable match expression emit_byte consume define_variable
  var_declaration = do
    global ← parse_variable (codes "Expect variable name.")
    has_value ← match TokenType.equal
    if has_value then expression g else emit_byte OpCode.op_nil
    consume TokenType.semicolon (codes "Expect ';' after variable declaration.")
    define_variable global

  unfoldable pub expression_statement : M (Unit {0})
  unfolding expression consume emit_byte
  expression_statement = do
    expression g
    consume TokenType.semicolon (codes "Expect ';' after expression.")
    emit_byte OpCode.op_pop

  -- The condition of a `for`, and the jump out of the loop if there is one.
  unfoldable pub for_condition : M (Option ℕ)
  unfolding match expression consume emit_jump emit_byte
  for_condition = do
    absent ← match TokenType.semicolon
    if absent then pure none else (do
      expression g
      consume TokenType.semicolon (codes "Expect ';' after loop condition.")
      exit_jump ← emit_jump OpCode.op_jump_if_false
      emit_byte OpCode.op_pop
      pure (some exit_jump))

  -- The increment of a `for`: the start that the body jumps back to.
  unfoldable pub for_increment : ℕ → M ℕ
  unfolding match emit_jump code_count expression emit_byte consume emit_loop patch_jump
  for_increment loop_start = do
    absent ← match TokenType.right_paren
    if absent then pure loop_start else (do
      body_jump ← emit_jump OpCode.op_jump
      increment_start ← code_count
      expression g
      emit_byte OpCode.op_pop
      consume TokenType.right_paren (codes "Expect ')' after for clauses.")
      emit_loop loop_start
      patch_jump body_jump
      pure increment_start)

  unfoldable pub for_initializer : M (Unit {0})
  unfolding match var_declaration expression_statement
  for_initializer = do
    absent ← match TokenType.semicolon
    if absent then pure tt else (do
      declares ← match TokenType.var
      if declares then var_declaration else expression_statement)

  unfoldable pub for_statement : M (Unit {0})
  unfolding begin_scope consume for_initializer code_count for_condition for_increment emit_loop
      patch_jump emit_byte end_scope
  for_statement = do
    begin_scope
    consume TokenType.left_paren (codes "Expect '(' after 'for'.")
    for_initializer
    loop_start ← code_count
    exit_jump ← for_condition
    back ← for_increment loop_start
    g.statement
    emit_loop back
    elim exit_jump [ none ↦ pure tt | some exit ↦ patch_jump exit >> emit_byte OpCode.op_pop ]
    end_scope

  unfoldable pub if_statement : M (Unit {0})
  unfolding consume expression emit_jump emit_byte patch_jump match
  if_statement = do
    consume TokenType.left_paren (codes "Expect '(' after 'if'.")
    expression g
    consume TokenType.right_paren (codes "Expect ')' after condition.")
    then_jump ← emit_jump OpCode.op_jump_if_false
    emit_byte OpCode.op_pop
    g.statement
    else_jump ← emit_jump OpCode.op_jump
    patch_jump then_jump
    emit_byte OpCode.op_pop
    has_else ← match TokenType.else_token
    when has_else g.statement
    patch_jump else_jump

  unfoldable pub print_statement : M (Unit {0})
  unfolding expression consume emit_byte
  print_statement = do
    expression g
    consume TokenType.semicolon (codes "Expect ';' after value.")
    emit_byte OpCode.op_print

  unfoldable pub return_statement : M (Unit {0})
  unfolding current_compiler error match emit_return expression consume emit_byte
  return_statement = do
    c ← current_compiler
    elim c.type [ type_script ↦ error (codes "Can't return from top-level code.") | _ ↦ pure tt ]
    bare ← match TokenType.semicolon
    if bare then emit_return else (do
      elim c.type [
        | type_initializer ↦ error (codes "Can't return a value from an initializer.")
        | _ ↦ pure tt
      ]
      expression g
      consume TokenType.semicolon (codes "Expect ';' after return value.")
      emit_byte OpCode.op_return)

  unfoldable pub while_statement : M (Unit {0})
  unfolding code_count consume expression emit_jump emit_byte emit_loop patch_jump
  while_statement = do
    loop_start ← code_count
    consume TokenType.left_paren (codes "Expect '(' after 'while'.")
    expression g
    consume TokenType.right_paren (codes "Expect ')' after condition.")
    exit_jump ← emit_jump OpCode.op_jump_if_false
    emit_byte OpCode.op_pop
    g.statement
    emit_loop loop_start
    patch_jump exit_jump
    emit_byte OpCode.op_pop

-- The tokens at which `synchronize` stops.
unfoldable pub starts_statement : TokenType → Bool
unfolding is_type
starts_statement t =
    is_type t TokenType.class
    || is_type t TokenType.fun
    || is_type t TokenType.var
    || is_type t TokenType.for_token
    || is_type t TokenType.if_token
    || is_type t TokenType.while
    || is_type t TokenType.print
    || is_type t TokenType.return

-- The loop of `synchronize` goes on at this token.
abbrev pub is_skipping : M Bool
is_skipping = do
  s ← get
  pure (
      not (is_type s.current.type TokenType.eof)
      && not (is_type s.previous.type TokenType.semicolon)
      && not (starts_statement s.current.type))

module _ (g : Grammar) where
  unfoldable pub synchronize : M (Unit {0})
  unfolding while starts_statement advance
  synchronize = do modify (λ s. record s { panic_mode = false }); while g.fuel is_skipping advance

  unfoldable pub declaration : M (Unit {0})
  unfolding match class_declaration fun_declaration var_declaration synchronize
  declaration = do
    is_class ← match TokenType.class
    if is_class then class_declaration g else (do
      is_fun ← match TokenType.fun
      if is_fun
          then fun_declaration g
          else (do is_var ← match TokenType.var; if is_var then var_declaration g else g.statement))
    s ← get
    when s.panic_mode synchronize

  -- `if (match(type)) taken else otherwise`
  unfoldable pub on_match : TokenType → M (Unit {0}) → M (Unit {0}) → M (Unit {0})
  unfolding match
  on_match type taken otherwise = do found ← match type; if found then taken else otherwise

  unfoldable pub statement : M (Unit {0})
  unfolding on_match print_statement for_statement if_statement return_statement while_statement
      begin_scope block end_scope expression_statement
  statement = on_match TokenType.print (print_statement g) (
      on_match TokenType.for_token (for_statement g) (
        on_match TokenType.if_token (if_statement g) (
          on_match TokenType.return (return_statement g) (
            on_match TokenType.while (while_statement g) (
              on_match TokenType.left_brace (do begin_scope; block g; end_scope)
                (expression_statement g))))))
