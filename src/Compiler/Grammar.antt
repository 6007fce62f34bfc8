-- ===== src/Compiler/Grammar.antt =====
-- What the functions of the grammar share (`namedVariable`, `syntheticToken` of src/compiler/parser.cc).
use yscript.Prelude.{ℕ, zero, suc, Bool, none, some, if◌then◌else◌, length}
use yscript.Prelude.Bytes.{Bytes}
use yscript.OpCode.{OpCode}
use yscript.Scanner.{Token, TokenType}
use yscript.Compiler.{M, ◌>>=◌, ◌>>◌, pure, fail, get, modify, current_compiler}
use yscript.Compiler.Scope.{identifier_constant, resolve_local, resolve_upvalue}

-- The functions of the grammar that call one another, at one level of nesting further in, with the
-- rounds that a loop may make there. `strtod` of the C library reads a number from its text.
pub record Grammar : Type 0 where
  pub fuel : ℕ
  pub strtod : Bytes → ℕ
  pub parse_precedence : ℕ → M (Unit {0})
  pub declaration : M (Unit {0})
  pub statement : M (Unit {0})

-- `while (test) body;`
unfoldable pub while : ℕ → M Bool → M (Unit {0}) → M (Unit {0})
while zero test body = fail
while (suc f) test body =
    let round = body >> while f test body in do on ← test; if on then round else pure tt

-- The type of the token before, and of the one now.
abbrev pub previous_type : M TokenType
previous_type = do s ← get; pure (s.previous.type)

unfoldable pub synthetic_token : Bytes → Token
synthetic_token text = record {
  type = TokenType.left_paren;
  start = text;
  length = length text;
  line = 0;
}

-- How a name is read and written, and its operand.
abbrev pub Access : Type 0
Access = OpCode × OpCode × ℕ

unfoldable pub resolve : Token → M Access
unfolding current_compiler resolve_local resolve_upvalue identifier_constant
resolve name = do
  c ← current_compiler
  found ← resolve_local c.locals name
  elim found [
    | some arg ↦ pure (OpCode.op_get_local, OpCode.op_set_local, arg)
    | none ↦ do
      s ← get
      (up, compilers) ← resolve_upvalue s.compilers name
      modify (λ s. record s { compilers = compilers })
      elim up [
        | some arg ↦ pure (OpCode.op_get_upvalue, OpCode.op_set_upvalue, arg)
        | none ↦ do
          arg ← identifier_constant name
          pure (OpCode.op_get_global, OpCode.op_set_global, arg)
      ]
  ]
