-- ===== src/Compiler/Compile.antt =====
-- The recursion of the grammar, and `compile` of src/compiler/parser.cc. A level of nesting spends one
-- unit of fuel, and a loop at that level may make as many rounds as there is fuel left.
use yscript.Prelude.{ℕ, zero, suc, [], false, not, Option, none, some, if◌then◌else◌}
use yscript.Prelude.Bytes.{Bytes}
use yscript.Value.{Ptr}
use yscript.Table.{init_table}
use yscript.Scanner.{Token, TokenType, init_scanner}
use yscript.Compiler.{type_script, State, M, ◌>>=◌, ◌>>◌, pure, get, modify}
use yscript.Compiler.Emit.{advance, match, init_compiler, end_compiler}
use yscript.Compiler.Expressions.{parse_precedence}
use yscript.Compiler.Grammar.{Grammar, while}
use yscript.Compiler.Statements.{declaration, statement}

module _ (strtod : Bytes → ℕ) where
  unfoldable pub grammar : ℕ → Grammar
  unfolding parse_precedence declaration statement
  grammar zero = record {
    fuel = 0;
    strtod = strtod;
    parse_precedence = λ _ s. none;
    declaration = λ s. none;
    statement = λ s. none;
  }
  grammar (suc f) = record {
    fuel = suc f;
    strtod = strtod;
    parse_precedence = λ p s. parse_precedence (grammar f) p s;
    declaration = λ s. declaration (grammar f) s;
    statement = λ s. statement (grammar f) s;
  }

  -- `while (!match(TOKEN_EOF)) declaration();`
  unfoldable pub declarations : ℕ → M (Unit {0})
  unfolding while match grammar
  declarations fuel =
      while fuel (do done ← match TokenType.eof; pure (not done)) ((grammar fuel).declaration)

  unfoldable pub compile : ℕ → Bytes → M (Option Ptr)
  unfolding init_scanner init_compiler advance declarations end_compiler
  compile fuel source = do
    modify (λ s. record s { scanner = init_scanner source })
    init_compiler type_script
    modify (λ s. record s { had_error = false; panic_mode = false })
    advance
    declarations fuel
    c ← end_compiler
    s ← get
    pure (if s.had_error then none else some c.function)

  -- The globals as the program starts: zeroed, with an empty table of strings.
  unfoldable pub start_state : State
  unfolding init_scanner init_table
  start_state =
      let blank : Token = record {
        type = TokenType.left_paren;
        start = [];
        length = 0;
        line = 0;
      } in
      record {
        memory = record { objects = []; strings = init_table };
        scanner = init_scanner [];
        current = blank;
        previous = blank;
        had_error = false;
        panic_mode = false;
        compilers = [];
        classes = [];
        reports = [];
      }
