-- ===== src/Scanner/Scan.antt =====
-- The scanner's functions that read a token (`checkKeyword` to `scanToken` of src/compiler/scanner.cc).
use yscript.Prelude.{
  ℕ, zero, suc, ◌+◌, ◌-◌, Bool, ◌&&◌, ◌||◌, not, ltb, ◌==◌, if◌then◌else◌, length, get_or, take,
  drop,
}
use yscript.Prelude.Bytes.{Bytes, codes, bytes_eq}
use yscript.Scanner.{
  TokenType, Token, Scanner, nul, newline, quote, is_alpha, is_digit, peek, is_at_end, advance,
  peek_next, match, make_token, error_token, remaining, advance_while, skip_whitespace, left_paren,
  right_paren, left_brace, right_brace, comma, dot, minus, plus, semicolon, slash, star, bang,
  bang_equal, equal, equal_equal, greater, greater_equal, less, less_equal, colon, identifier,
  string, number, and, class, else_token, false_token, for_token, fun, if_token, nil, or, print,
  return, super, this, true_token, var, while, eof,
}

-- `start`, `length`, `rest`, `type`
unfoldable pub check_keyword : Scanner → ℕ → ℕ → Bytes → TokenType → TokenType
check_keyword s start length rest type =
    if (s.current - s.start == start + length)
      && bytes_eq (take length (drop (s.start + start) s.source)) rest
    then type
    else identifier

unfoldable pub identifier_type : Scanner → TokenType
unfolding check_keyword
identifier_type s =
    let c = get_or s.source s.start nul in
    let second = get_or s.source (s.start + 1) nul in
    let long = ltb 1 (s.current - s.start) in
    if c == b'a'
    then check_keyword s 1 2 (codes "nd") and
    else if c == b'c'
    then check_keyword s 1 4 (codes "lass") class
    else if c == b'e'
    then check_keyword s 1 3 (codes "lse") else_token
    else if c == b'f'
    then (if long && second == b'a'
        then check_keyword s 2 3 (codes "lse") false_token
        else if long && second == b'o'
        then check_keyword s 2 1 (codes "r") for_token
        else if long && second == b'u'
        then check_keyword s 2 1 (codes "n") fun
        else identifier)
    else if c == b'i'
    then check_keyword s 1 1 (codes "f") if_token
    else if c == b'n'
    then check_keyword s 1 2 (codes "il") nil
    else if c == b'o'
    then check_keyword s 1 1 (codes "r") or
    else if c == b'p'
    then check_keyword s 1 4 (codes "rint") print
    else if c == b'r'
    then check_keyword s 1 5 (codes "eturn") return
    else if c == b's'
    then check_keyword s 1 4 (codes "uper") super
    else if c == b't'
    then (if long && second == b'h'
        then check_keyword s 2 2 (codes "is") this
        else if long && second == b'r'
        then check_keyword s 2 2 (codes "ue") true_token
        else identifier)
    else if c == b'v'
    then check_keyword s 1 2 (codes "ar") var
    else if c == b'w'
    then check_keyword s 1 4 (codes "hile") while
    else identifier

abbrev pub at_name : Scanner → Bool
at_name s = is_alpha (peek s) || is_digit (peek s)

abbrev pub at_digit : Scanner → Bool
at_digit s = is_digit (peek s)

unfoldable pub scan_identifier : Scanner → Token × Scanner
unfolding advance_while is_alpha is_digit identifier_type make_token
scan_identifier s =
    let s₁ = advance_while at_name (remaining s) s in (make_token (identifier_type s₁) s₁, s₁)

unfoldable pub scan_number : Scanner → Token × Scanner
unfolding advance_while is_digit peek_next make_token
scan_number s =
    let s₁ = advance_while at_digit (remaining s) s in
    let s₂ = advance s₁ in
    let s₃ =
      if peek s₁ == b'.' && is_digit (peek_next s₁)
      then advance_while at_digit (remaining s₂) s₂
      else s₁ in
    (make_token number s₃, s₃)

-- The loop of `string()`: up to the closing quote, or to the end.
unfoldable pub string_loop : ℕ → Scanner → Scanner
unfolding is_at_end advance
string_loop zero s = s
string_loop (suc f) s =
    let rest =
      string_loop f (advance (if peek s == newline then record s { line = s.line + 1 } else s)) in
    if not (peek s == quote) && not (is_at_end s) then rest else s

unfoldable pub scan_string : Scanner → Token × Scanner
unfolding string_loop error_token make_token
scan_string s =
    let s₁ = string_loop (remaining s) s in
    if is_at_end s₁
    then (error_token (codes "Unterminated string.") s₁, s₁)
    else (make_token string (advance s₁), advance s₁)

-- `makeToken(match('=') ? longer : shorter)`
unfoldable pub one_or_two : TokenType → TokenType → Scanner → Token × Scanner
unfolding match make_token
one_or_two longer shorter s =
    let (found, s₁) = match b'=' s in (make_token (if found then longer else shorter) s₁, s₁)

-- The `switch` on the first byte of a token that is no name and no number.
unfoldable pub scan_symbol : ℕ → Scanner → Token × Scanner
unfolding make_token one_or_two scan_string error_token
scan_symbol c s =
    if c == b'('
    then (make_token left_paren s, s)
    else if c == b')'
    then (make_token right_paren s, s)
    else if c == b'{'
    then (make_token left_brace s, s)
    else if c == b'}'
    then (make_token right_brace s, s)
    else if c == b';'
    then (make_token semicolon s, s)
    else if c == b':'
    then (make_token colon s, s)
    else if c == b','
    then (make_token comma s, s)
    else if c == b'.'
    then (make_token dot s, s)
    else if c == b'-'
    then (make_token minus s, s)
    else if c == b'+'
    then (make_token plus s, s)
    else if c == b'/'
    then (make_token slash s, s)
    else if c == b'*'
    then (make_token star s, s)
    else if c == b'!'
    then one_or_two bang_equal bang s
    else if c == b'='
    then one_or_two equal_equal equal s
    else if c == b'<'
    then one_or_two less_equal less s
    else if c == b'>'
    then one_or_two greater_equal greater s
    else if c == quote
    then scan_string s
    else (error_token (codes "Unexpected character.") s, s)

-- The dispatch of `scanToken` on the byte `c` that it has just passed.
unfoldable pub scan_from : ℕ → Scanner → Token × Scanner
unfolding scan_identifier scan_number scan_symbol
scan_from c s =
    if is_alpha c then scan_identifier s else if is_digit c then scan_number s else scan_symbol c s

-- `scanToken` behind the white space, where the new token starts.
unfoldable pub scan_here : Scanner → Token × Scanner
unfolding is_at_end advance make_token scan_from
scan_here s = if is_at_end s then (make_token eof s, s) else scan_from (peek s) (advance s)

unfoldable pub scan_token : Scanner → Token × Scanner
unfolding skip_whitespace scan_here
scan_token s₀ = let s = skip_whitespace s₀ in scan_here (record s { start = s.current })
