-- ===== src/Scanner/Types.antt =====
-- The token types of src/compiler/scanner.h by their values.
use yscript.Prelude.{◌≡◌, refl, sym, ap, ◌∙◌, List, [], ◌∷◌, true, arith, get_or}
use yscript.Scanner.{TokenType, type_index, is_type}

abbrev types : List TokenType
types =
    TokenType.left_paren ∷ TokenType.right_paren ∷ TokenType.left_brace ∷ TokenType.right_brace
    ∷ TokenType.comma ∷ TokenType.dot ∷ TokenType.minus ∷ TokenType.plus ∷ TokenType.semicolon
    ∷ TokenType.slash ∷ TokenType.star ∷ TokenType.bang ∷ TokenType.bang_equal ∷ TokenType.equal
    ∷ TokenType.equal_equal ∷ TokenType.greater ∷ TokenType.greater_equal ∷ TokenType.less
    ∷ TokenType.less_equal ∷ TokenType.colon ∷ TokenType.identifier ∷ TokenType.string
    ∷ TokenType.number ∷ TokenType.and ∷ TokenType.class ∷ TokenType.else_token
    ∷ TokenType.false_token ∷ TokenType.for_token ∷ TokenType.fun ∷ TokenType.if_token
    ∷ TokenType.nil ∷ TokenType.or ∷ TokenType.print ∷ TokenType.return ∷ TokenType.super
    ∷ TokenType.this ∷ TokenType.true_token ∷ TokenType.var ∷ TokenType.while ∷ TokenType.error
    ∷ TokenType.eof ∷ []

type_at-type_index : (t : TokenType) → get_or types (type_index t) TokenType.eof ≡ t
unfolding type_index
type_at-type_index TokenType.left_paren = refl
type_at-type_index TokenType.right_paren = refl
type_at-type_index TokenType.left_brace = refl
type_at-type_index TokenType.right_brace = refl
type_at-type_index TokenType.comma = refl
type_at-type_index TokenType.dot = refl
type_at-type_index TokenType.minus = refl
type_at-type_index TokenType.plus = refl
type_at-type_index TokenType.semicolon = refl
type_at-type_index TokenType.slash = refl
type_at-type_index TokenType.star = refl
type_at-type_index TokenType.bang = refl
type_at-type_index TokenType.bang_equal = refl
type_at-type_index TokenType.equal = refl
type_at-type_index TokenType.equal_equal = refl
type_at-type_index TokenType.greater = refl
type_at-type_index TokenType.greater_equal = refl
type_at-type_index TokenType.less = refl
type_at-type_index TokenType.less_equal = refl
type_at-type_index TokenType.colon = refl
type_at-type_index TokenType.identifier = refl
type_at-type_index TokenType.string = refl
type_at-type_index TokenType.number = refl
type_at-type_index TokenType.and = refl
type_at-type_index TokenType.class = refl
type_at-type_index TokenType.else_token = refl
type_at-type_index TokenType.false_token = refl
type_at-type_index TokenType.for_token = refl
type_at-type_index TokenType.fun = refl
type_at-type_index TokenType.if_token = refl
type_at-type_index TokenType.nil = refl
type_at-type_index TokenType.or = refl
type_at-type_index TokenType.print = refl
type_at-type_index TokenType.return = refl
type_at-type_index TokenType.super = refl
type_at-type_index TokenType.this = refl
type_at-type_index TokenType.true_token = refl
type_at-type_index TokenType.var = refl
type_at-type_index TokenType.while = refl
type_at-type_index TokenType.error = refl
type_at-type_index TokenType.eof = refl

pub is_type→eq : (a b : TokenType) → is_type a b ≡ true → a ≡ b
unfolding is_type
is_type→eq a b h =
    let same : type_index a ≡ type_index b = ground arith in
    sym (type_at-type_index a) ∙ ap (λ n. get_or types n TokenType.eof) same ∙ type_at-type_index b

pub eq→is_type : (a b : TokenType) → a ≡ b → is_type a b ≡ true
unfolding is_type
eq→is_type a b e = let same : type_index a ≡ type_index b = ap type_index e in ground arith
