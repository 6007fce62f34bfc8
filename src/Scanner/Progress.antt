-- ===== src/Scanner/Progress.antt =====
-- The tokens of the scanner (`identifier`, `number`, `string`, `match` and `scanToken` of
-- src/compiler/scanner.cc): what each takes of the text, and how lines are counted.
use yscript.Prelude.{
  ℕ, zero, suc, ◌+◌, ◌≤◌, ◌<◌, ◌≡◌, refl, ◌∙◌, ◌≢◌, Bool, true, false, not, ◌&&◌, arith, ◌==◌,
  if◌then◌else◌, if_elim, Bool-cases, inl, inr,
}
use yscript.Scanner.Moves.{
  IsScanned, Moved, at_blank, skip_whitespace_stops, lt_of_get_or, stay, trans, advance-Moved,
  advance-newline, advance_while-Moved, at_name-IsSafe, at_digit-IsSafe, skip_whitespace-Moved,
}
use yscript.Scanner.{
  Token, TokenType, bang_equal, bang, equal_equal, equal, less_equal, less, greater_equal, greater,
  Scanner, newline, quote, is_alpha, is_digit, peek, peek_next, is_at_end, advance, make_token,
  remaining, advance_while, skip_whitespace, eof,
}
use yscript.Scanner.Scan.{
  at_name, at_digit, scan_identifier, scan_number, string_loop, scan_string, one_or_two,
  scan_symbol, scan_from, scan_here, scan_token,
}

abbrev in_string : Scanner → Bool
in_string s = not (peek s == quote) && not (is_at_end s)

abbrev count_line : Scanner → Scanner
count_line s = if peek s == newline then record s { line = s.line + 1 } else s

string_step : (s : Scanner) → IsScanned s → in_string s ≡ true → Moved s (advance (count_line s))
unfolding is_at_end
string_step s v on = elim (Bool-cases (peek s == newline)) [
  | inl e ↦ rw e (advance-newline s v (ground arith))
  | inr n ↦ rw n (advance-Moved s v (ground arith) (ground arith))
]

string_loop-Moved : (f : ℕ) (s : Scanner) → IsScanned s → Moved s (string_loop f s)
unfolding string_loop
string_loop-Moved zero s v = stay v
string_loop-Moved (suc f) s v =
    if_elim (Moved s) (in_string s)
      (λ on. let step = string_step s v on in trans step (string_loop-Moved f _ step.scanned))
      (λ _. stay v)

string_loop_stops :
    (f : ℕ) (s : Scanner) → IsScanned s → remaining s ≤ f → in_string (string_loop f s) ≡ false
unfolding string_loop
string_loop_stops zero s v h = elim (Bool-cases (in_string s)) [
  | inl on ↦ absurd (unfold peek is_at_end in ground (arith, lt_of_get_or s.source s.current))
  | inr off ↦ off
]
string_loop_stops (suc f) s v h = elim (Bool-cases (in_string s)) [
  | inl on ↦
      rw on (string_loop_stops f _ (string_step s v on).scanned (unfold advance in ground arith))
  | inr off ↦ rw off off
]

-- Of a result of the scanner: the state has moved on.
abbrev Onward : Scanner → Token × Scanner → Type 0
Onward s r = Moved s r.1

scan_identifier-Onward : (s : Scanner) → IsScanned s → Onward s (scan_identifier s)
unfolding scan_identifier
scan_identifier-Onward s v = advance_while-Moved at_name at_name-IsSafe (remaining s) s v

scan_number-Onward : (s : Scanner) → IsScanned s → Onward s (scan_number s)
unfolding scan_number
scan_number-Onward s v =
    let whole = advance_while-Moved at_digit at_digit-IsSafe (remaining s) s v in
    let s₁ = advance_while at_digit (remaining s) s in
    if_elim (Moved s) (peek s₁ == b'.' && is_digit (peek_next s₁))
      (λ e.
        let step = advance-Moved s₁ whole.scanned (ground arith) (ground arith) in
        trans whole (trans step (advance_while-Moved at_digit at_digit-IsSafe _ _ step.scanned)))
      (λ _. whole)

scan_string-Onward : (s : Scanner) → IsScanned s → Onward s (scan_string s)
unfolding scan_string
scan_string-Onward s v =
    let text = string_loop-Moved (remaining s) s v in
    let s₁ = string_loop (remaining s) s in
    let stopped = string_loop_stops (remaining s) s v (omega arith) in
    if_elim (Onward s) (is_at_end s₁) (λ _. text)
      λ more.
        trans text (advance-Moved s₁ text.scanned (unfold is_at_end in ground arith) (ground arith))

one_or_two-Onward :
    (longer shorter : TokenType) (s : Scanner)
    → IsScanned s
    → Onward s (one_or_two longer shorter s)
unfolding one_or_two
one_or_two-Onward longer shorter s v = elim (Bool-cases (is_at_end s)) [
  | inl e ↦ rw e (stay v)
  | inr n ↦ elim (Bool-cases (peek s == b'=')) [
    | inl e ↦ rw (n, e) (advance-Moved s v (unfold is_at_end in ground arith) (ground arith))
    | inr no_match ↦ rw (n, no_match) (stay v)
  ]
]

scan_symbol-Onward : (c : ℕ) (s : Scanner) → IsScanned s → Onward s (scan_symbol c s)
unfolding scan_symbol
scan_symbol-Onward c s v = ground (
  arith,
  stay v,
  one_or_two-Onward bang_equal bang s v,
  one_or_two-Onward equal_equal equal s v,
  one_or_two-Onward less_equal less s v,
  one_or_two-Onward greater_equal greater s v,
  scan_string-Onward s v,
)

scan_from-Onward : (c : ℕ) (s : Scanner) → IsScanned s → Onward s (scan_from c s)
unfolding scan_from
scan_from-Onward c s v =
    if_elim (Onward s) (is_alpha c) (λ _. scan_identifier-Onward s v)
      λ _.
        if_elim (Onward s) (is_digit c) (λ _. scan_number-Onward s v) λ _. scan_symbol-Onward c s v

-- What one call of `scanToken` does to a scanner: the text stays, the new token starts at or
-- behind the old position, and the position and the line count stay right.
pub record Scans (s : Scanner) (r : Token × Scanner) : Type 0 where
  pub source : r.1.source ≡ s.source
  pub onward : s.current ≤ r.1.start
  pub ordered : r.1.start ≤ r.1.current
  pub progress : r.0.type ≢ eof → r.1.start < r.1.current
  pub scanned : IsScanned r.1

scan_here-Scans :
    (s : Scanner) → IsScanned s → s.start ≡ s.current → at_blank s ≡ false → Scans s (scan_here s)
unfolding scan_here
scan_here-Scans s v here solid =
    if_elim (Scans s) (is_at_end s)
      (λ _. record {
        source = refl;
        onward = omega arith;
        ordered = omega arith;
        progress = λ h. absurd (h (unfold make_token in refl));
        scanned = v;
      })
      λ more.
        let step = advance-Moved s v (unfold is_at_end in ground arith) (ground arith) in
        let token = scan_from-Onward (peek s) (advance s) step.scanned in
        let taken : suc s.current ≤ (advance s).current = unfold advance in omega arith in
        record {
          source = token.source ∙ step.source;
          onward = omega (arith, token.start, step.start);
          ordered = omega (arith, token.start, step.start, token.onward);
          progress = λ _. omega (arith, token.start, step.start, token.onward);
          scanned = token.scanned;
        }

-- Every call keeps the text, passes over no byte backwards, counts the lines that it passes, and
-- takes at least one byte unless the token is the end of the text.
pub scan_token-Scans : (s : Scanner) → IsScanned s → Scans s (scan_token s)
unfolding scan_token
scan_token-Scans s v =
    let skipped = skip_whitespace-Moved s v in
    let s₁ = record (skip_whitespace s) { start = (skip_whitespace s).current } in
    let v₁ : IsScanned s₁ = record {
      within = skipped.scanned.within;
      counted = skipped.scanned.counted;
    } in
    let scans = scan_here-Scans s₁ v₁ refl (skip_whitespace_stops s v) in
    record {
      source = scans.source ∙ skipped.source;
      onward = omega (arith, scans.onward, skipped.onward);
      ordered = scans.ordered;
      progress = scans.progress;
      scanned = scans.scanned;
    }
