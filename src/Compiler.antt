-- ===== src/Compiler.antt =====
-- The compiler (src/compiler/parser.cc): one pass over the tokens that writes bytecode. This file has
-- its state; `Emit` writes code, `Scope` resolves names, `Rules` is the table of the expression parser,
-- and `Expressions` and `Statements` are the functions of the grammar.
pub mod Emit
pub mod Scope
pub mod Rules
pub mod Expressions
pub mod Statements
pub mod Compile
pub mod Jumps
pub mod Constants
pub mod Names
pub mod Upvalues
pub mod Recovery
pub mod Tokens
pub mod Grammar
pub mod Functions
use yscript.Prelude.{
  ℕ, ◌+◌, ◌-◌, ◌*◌, ◌%◌, List, [], ◌∷◌, Bool, true, false, Option, none, some, ◌==◌, if◌then◌else◌,
  get_elem?, set,
}
use yscript.Prelude.Bytes.{Bytes}
use yscript.Value.{Ptr, Value, Table}
use yscript.Memory.{Memory, ObjFunction, Obj, function}
use yscript.Scanner.{Scanner, Token, TokenType}

-- `depth` is -1, here `none`, from the declaration of a local to the end of its initializer.
pub record Local : Type 0 where
  pub name : Token
  pub depth : Option ℕ
  pub is_captured : Bool

pub record Upvalue : Type 0 where
  pub index : ℕ
  pub is_local : Bool

pub data FunctionType : Type 0 where
  type_function type_initializer type_method type_script : FunctionType

-- `locals` are the first `localCount` cells of the array, the last one first, so that the index of
-- a local is the number of those behind it in the list. `upvalues` are the first
-- `function->upvalueCount` cells, in their order.
pub record Compiler : Type 0 where
  pub function : Ptr
  pub type : FunctionType
  pub locals : List Local
  pub upvalues : List Upvalue
  pub scope_depth : ℕ

-- A line that `errorAt` prints, and where it says that the error is.
pub data Place : Type 0 where
  at_end : Place
  nowhere : Place
  at_text : Bytes → Place

pub record Report : Type 0 where
  pub line : ℕ
  pub place : Place
  pub message : Bytes

-- The globals `parser`, `scanner`, `current` and `currentClass`, and the memory. The head of `compilers`
-- is `current`, and the rest are what `enclosing` leads to; a class is its `hasSuperclass`.
pub record State : Type 0 where
  pub memory : Memory
  pub scanner : Scanner
  pub current : Token
  pub previous : Token
  pub had_error : Bool
  pub panic_mode : Bool
  pub compilers : List Compiler
  pub classes : List Bool
  pub reports : List Report

-- A command; `none` says that the fuel of a loop has run out, or that a null pointer is read.
abbrev pub M : Type 0 → Type 0
M A = State → Option (A × State)

infixl 5 ◌>>=◌ ◌>>◌
abbrev pub ◌>>=◌ : {A B : Type 0} → M A → (A → M B) → M B
◌>>=◌ m f s = elim (m s) [ none ↦ none | some (a, s') ↦ f a s' ]

abbrev pub ◌>>◌ : {B : Type 0} → M (Unit {0}) → M B → M B
m >> k = m >>= λ _. k

abbrev pub pure : {A : Type 0} → A → M A
pure a s = some (a, s)

abbrev pub fail : {A : Type 0} → M A
fail s = none

abbrev pub get : M State
get s = some (s, s)

abbrev pub modify : (State → State) → M (Unit {0})
modify f s = some (tt, f s)

-- `if (test) body;`
abbrev pub when : Bool → M (Unit {0}) → M (Unit {0})
when test body = if test then body else pure tt

-- `*current`
unfoldable pub current_compiler : M Compiler
current_compiler s = elim s.compilers [ [] ↦ none | c ∷ _ ↦ some (c, s) ]

abbrev pub update_head : (Compiler → Compiler) → List Compiler → List Compiler
update_head f [] = []
update_head f (c ∷ cs) = f c ∷ cs

unfoldable pub modify_compiler : (Compiler → Compiler) → M (Unit {0})
modify_compiler f = modify (λ s. record s { compilers = update_head f s.compilers })

abbrev pub as_function : Option Obj → Option ObjFunction
as_function (some (function f)) = some f
as_function _ = none

-- `*current->function`
unfoldable pub current_function : M ObjFunction
unfolding current_compiler
current_function = do
  c ← current_compiler
  s ← get
  elim (as_function (get_elem? s.memory.objects c.function)) [ none ↦ fail | some f ↦ pure f ]

unfoldable pub set_function : ObjFunction → M (Unit {0})
unfolding current_compiler
set_function f = do
  c ← current_compiler
  modify λ s. record s {
    memory = record (s.memory) { objects = set s.memory.objects c.function (function f) };
  }

-- A command on the memory alone.
abbrev pub in_memory : {A : Type 0} → (Memory → Option (A × Memory)) → M A
in_memory f s = elim (f s.memory) [ none ↦ none | some (a, m) ↦ some (a, record s { memory = m }) ]
