-- ===== src/Scanner.antt =====
-- The scanner (src/compiler/scanner.h and src/compiler/scanner.cc).
-- A pointer into the source text is an index, and the terminating NUL is what a read at or past
-- the end gives. Bytes above 127 are negative `char`s, which no test of the scanner accepts.
pub mod Moves
pub mod Progress
pub mod Keywords
pub mod Scan
pub mod Types
use yscript.Prelude.{
  ℕ, zero, suc, ◌+◌, ◌-◌, Bool, true, false, ◌&&◌, ◌||◌, not, List, [], ◌∷◌, ltb, leb, ◌==◌,
  if◌then◌else◌, length, get_or, take, drop,
}
use yscript.Prelude.Bytes.{Bytes, codes, bytes_eq}

pub data TokenType : Type 0 where
  left_paren right_paren left_brace right_brace comma dot minus plus : TokenType
  semicolon slash star : TokenType
  bang bang_equal equal equal_equal greater greater_equal less less_equal colon : TokenType
  identifier string number : TokenType
  and class else_token false_token for_token fun if_token nil or print return super this : TokenType
  true_token var while : TokenType
  error eof : TokenType

-- The value of the enumerator, by which the code compares types.
unfoldable pub type_index : TokenType → ℕ
type_index left_paren = 0
type_index right_paren = 1
type_index left_brace = 2
type_index right_brace = 3
type_index comma = 4
type_index dot = 5
type_index minus = 6
type_index plus = 7
type_index semicolon = 8
type_index slash = 9
type_index star = 10
type_index bang = 11
type_index bang_equal = 12
type_index equal = 13
type_index equal_equal = 14
type_index greater = 15
type_index greater_equal = 16
type_index less = 17
type_index less_equal = 18
type_index colon = 19
type_index identifier = 20
type_index string = 21
type_index number = 22
type_index and = 23
type_index class = 24
type_index else_token = 25
type_index false_token = 26
type_index for_token = 27
type_index fun = 28
type_index if_token = 29
type_index nil = 30
type_index or = 31
type_index print = 32
type_index return = 33
type_index super = 34
type_index this = 35
type_index true_token = 36
type_index var = 37
type_index while = 38
type_index error = 39
type_index eof = 40

unfoldable pub is_type : TokenType → TokenType → Bool
unfolding type_index
is_type a b = type_index a == type_index b

-- `start` is the text from the pointer on, of which the first `length` bytes are the token.
pub record Token : Type 0 where
  pub type : TokenType
  pub start : Bytes
  pub length : ℕ
  pub line : ℕ

pub record Scanner : Type 0 where
  pub source : Bytes
  pub start : ℕ
  pub current : ℕ
  pub line : ℕ

unfoldable pub init_scanner : Bytes → Scanner
init_scanner source = record { source = source; start = 0; current = 0; line = 1 }

abbrev pub nul : ℕ
nul = 0

abbrev pub newline : ℕ
newline = 10

abbrev pub space : ℕ
space = 32

abbrev pub tab : ℕ
tab = 9

abbrev pub carriage_return : ℕ
carriage_return = 13

abbrev pub quote : ℕ
quote = 34

unfoldable pub is_alpha : ℕ → Bool
is_alpha c = (leb b'a' c && leb c b'z') || (leb b'A' c && leb c b'Z') || c == b'_'

unfoldable pub is_digit : ℕ → Bool
is_digit c = leb b'0' c && leb c b'9'

unfoldable pub peek : Scanner → ℕ
peek s = get_or s.source s.current nul

unfoldable pub is_at_end : Scanner → Bool
unfolding peek
is_at_end s = peek s == nul

unfoldable pub advance : Scanner → Scanner
advance s = record s { current = s.current + 1 }

unfoldable pub peek_next : Scanner → ℕ
unfolding is_at_end
peek_next s = if is_at_end s then nul else get_or s.source (s.current + 1) nul

-- The test, and the scanner behind the byte if it is the expected one.
unfoldable pub match : ℕ → Scanner → Bool × Scanner
unfolding is_at_end advance
match expected s =
    if is_at_end s then (false, s) else if peek s == expected then (true, advance s) else (false, s)

unfoldable pub make_token : TokenType → Scanner → Token
make_token type s = record {
  type = type;
  start = drop s.start s.source;
  length = s.current - s.start;
  line = s.line;
}

unfoldable pub error_token : Bytes → Scanner → Token
error_token message s = record {
  type = error;
  start = message;
  length = length message;
  line = s.line;
}

-- The bytes that are left, which bounds the rounds of every loop.
abbrev pub remaining : Scanner → ℕ
remaining s = length s.source - s.current

-- `while (test) advance();`
unfoldable pub advance_while : (Scanner → Bool) → ℕ → Scanner → Scanner
unfolding advance
advance_while test zero s = s
advance_while test (suc f) s =
    let rest = advance_while test f (advance s) in if test s then rest else s

abbrev pub in_comment : Scanner → Bool
in_comment s = not (peek s == newline) && not (is_at_end s)

unfoldable pub skip_whitespace_loop : ℕ → Scanner → Scanner
unfolding peek_next advance_while
skip_whitespace_loop zero s = s
skip_whitespace_loop (suc f) s =
    let c = peek s in
    let blank = skip_whitespace_loop f (advance s) in
    let line = skip_whitespace_loop f (advance (record s { line = s.line + 1 })) in
    let comment = skip_whitespace_loop f (advance_while in_comment (remaining s) s) in
    if c == space || c == carriage_return || c == tab
    then blank
    else if c == newline
    then line
    else if c == b'/' && peek_next s == b'/'
    then comment
    else s

unfoldable pub skip_whitespace : Scanner → Scanner
unfolding skip_whitespace_loop
skip_whitespace s = skip_whitespace_loop (remaining s) s
