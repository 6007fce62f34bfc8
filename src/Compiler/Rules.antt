-- ===== src/Compiler/Rules.antt =====
-- Precedences and the rules of the expression parser (`Precedence`, `ParseRule`, `rules` and
-- `getRule` of src/compiler/parser.cc).
use yscript.Prelude.{ℕ, Option, none, some}
use yscript.Scanner.{TokenType}

abbrev pub prec_none : ℕ
prec_none = 0

abbrev pub prec_assignment : ℕ
prec_assignment = 1

abbrev pub prec_or : ℕ
prec_or = 2

abbrev pub prec_and : ℕ
prec_and = 3

abbrev pub prec_equality : ℕ
prec_equality = 4

abbrev pub prec_comparison : ℕ
prec_comparison = 5

abbrev pub prec_term : ℕ
prec_term = 6

abbrev pub prec_factor : ℕ
prec_factor = 7

abbrev pub prec_unary : ℕ
prec_unary = 8

abbrev pub prec_call : ℕ
prec_call = 9

-- The functions that a rule can name.
pub data ParseFn : Type 0 where
  grouping call unary binary dot variable string number literal and_ or_ super_ this_ : ParseFn

pub record ParseRule : Type 0 where
  pub prefix : Option ParseFn
  pub infix_fn : Option ParseFn
  pub precedence : ℕ

abbrev rule : Option ParseFn → Option ParseFn → ℕ → ParseRule
rule p i precedence = record { prefix = p; infix_fn = i; precedence = precedence }

unfoldable pub get_rule : TokenType → ParseRule
get_rule TokenType.left_paren = rule (some grouping) (some call) prec_call
get_rule TokenType.dot = rule none (some dot) prec_call
get_rule TokenType.minus = rule (some unary) (some binary) prec_term
get_rule TokenType.plus = rule none (some binary) prec_term
get_rule TokenType.slash = rule none (some binary) prec_factor
get_rule TokenType.star = rule none (some binary) prec_factor
get_rule TokenType.bang = rule (some unary) none prec_none
get_rule TokenType.bang_equal = rule none (some binary) prec_equality
get_rule TokenType.equal_equal = rule none (some binary) prec_equality
get_rule TokenType.greater = rule none (some binary) prec_comparison
get_rule TokenType.greater_equal = rule none (some binary) prec_comparison
get_rule TokenType.less = rule none (some binary) prec_comparison
get_rule TokenType.less_equal = rule none (some binary) prec_comparison
get_rule TokenType.identifier = rule (some variable) none prec_none
get_rule TokenType.string = rule (some string) none prec_none
get_rule TokenType.number = rule (some number) none prec_none
get_rule TokenType.and = rule none (some and_) prec_and
get_rule TokenType.false_token = rule (some literal) none prec_none
get_rule TokenType.nil = rule (some literal) none prec_none
get_rule TokenType.or = rule none (some or_) prec_or
get_rule TokenType.super = rule (some super_) none prec_none
get_rule TokenType.this = rule (some this_) none prec_none
get_rule TokenType.true_token = rule (some literal) none prec_none
get_rule _ = rule none none prec_none
