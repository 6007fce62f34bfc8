-- ===== src/Scanner/Moves.antt =====
-- How the scanner moves over the text and counts lines (`advance` and the loops of
-- `skipWhitespace`, `identifier` and `number` in src/compiler/scanner.cc).
use yscript.Prelude.{
  ℕ, zero, suc, ◌+◌, ◌≤◌, ◌<◌, ◌≡◌, refl, ap, ◌≢◌, Bool, true, false, ◌&&◌, ◌||◌, [], ◌∷◌, arith,
  ◌==◌, if◌then◌else◌, if_elim, length, get_or, Bool-cases, inl, inr,
}
use yscript.Prelude.Bytes.{Bytes}
use yscript.Scanner.{
  Scanner, newline, nul, space, tab, carriage_return, is_alpha, is_digit, peek, peek_next,
  is_at_end, advance, remaining, advance_while, in_comment, skip_whitespace_loop, skip_whitespace,
}
use yscript.Scanner.Scan.{at_name, at_digit}

-- The line ends among the first `n` bytes.
unfoldable pub lines_before : ℕ → Bytes → ℕ
lines_before zero xs = 0
lines_before (suc n) [] = 0
lines_before (suc n) (x ∷ xs) = (if x == newline then 1 else 0) + lines_before n xs

lines_before-suc :
    (n : ℕ) (xs : Bytes)
    → lines_before (suc n) xs ≡ lines_before n xs + (if get_or xs n 0 == newline then 1 else 0)
unfolding lines_before
lines_before-suc zero [] = ground arith
lines_before-suc (suc n) [] = ground arith
lines_before-suc zero (x ∷ xs) = ground arith
lines_before-suc (suc n) (x ∷ xs) = omega (arith, lines_before-suc n xs)

get_or_end : (xs : Bytes) (i : ℕ) → length xs ≤ i → get_or xs i 0 ≡ 0
get_or_end [] i h = refl
get_or_end (x ∷ xs) zero h = absurd (omega arith)
get_or_end (x ∷ xs) (suc i) h = get_or_end xs i (omega arith)

pub lt_of_get_or : (xs : Bytes) (i : ℕ) → get_or xs i 0 ≢ 0 → i < length xs
lt_of_get_or [] i h = absurd (h refl)
lt_of_get_or (x ∷ xs) zero h = omega arith
lt_of_get_or (x ∷ xs) (suc i) h = omega (arith, lt_of_get_or xs i h)

-- The read position is within the text and its NUL, and the line is one more than the line ends
-- that have been passed.
pub record IsScanned (s : Scanner) : Type 0 where
  pub within : s.current ≤ length s.source
  pub counted : s.line ≡ 1 + lines_before s.current s.source

-- `t` is `s` moved on: the same text and token start, no earlier position, and still well formed.
pub record Moved (s t : Scanner) : Type 0 where
  pub source : t.source ≡ s.source
  pub start : t.start ≡ s.start
  pub onward : s.current ≤ t.current
  pub scanned : IsScanned t

pub stay : {s : Scanner} → IsScanned s → Moved s s
stay v = record { source = refl; start = refl; onward = omega arith; scanned = v }

pub trans : {s t u : Scanner} → Moved s t → Moved t u → Moved s u
trans m n = ground arith

suc-add : (n : ℕ) → n + 1 ≡ suc n
suc-add n = omega arith

module _ (s : Scanner) (v : IsScanned s) where
  pub advance-Moved : peek s ≢ nul → peek s ≢ newline → Moved s (advance s)
  unfolding advance peek
  advance-Moved h n =
      rw suc-add
        (ground (arith, lt_of_get_or s.source s.current, lines_before-suc s.current s.source))

  pub advance-newline : peek s ≡ newline → Moved s (advance (record s { line = s.line + 1 }))
  unfolding advance peek
  advance-newline h =
      rw suc-add
        (ground (arith, lt_of_get_or s.source s.current, lines_before-suc s.current s.source))

-- A loop condition that no NUL and no line end passes.
abbrev pub IsSafe : (Scanner → Bool) → Type 0
IsSafe test = (t : Scanner) → test t ≡ true → (peek t ≢ nul) × (peek t ≢ newline)

pub at_name-IsSafe : IsSafe at_name
unfolding is_alpha is_digit
at_name-IsSafe t h = ground arith

pub at_digit-IsSafe : IsSafe at_digit
unfolding is_digit
at_digit-IsSafe t h = ground arith

in_comment-IsSafe : IsSafe in_comment
unfolding is_at_end
in_comment-IsSafe t h = ground arith

module _ (test : Scanner → Bool) (safe : IsSafe test) where
  pub advance_while-Moved : (f : ℕ) (s : Scanner) → IsScanned s → Moved s (advance_while test f s)
  unfolding advance_while
  advance_while-Moved zero s v = stay v
  advance_while-Moved (suc f) s v = elim (Bool-cases (test s)) [
    | inl on ↦
        let step = advance-Moved s v (safe s on).0 (safe s on).1 in
        rw on (trans step (advance_while-Moved f (advance s) step.scanned))
    | inr off ↦ rw off (stay v)
  ]

  -- With a round for each byte that is left, such a loop ends by its condition.
  advance_while_stops :
      (f : ℕ) (s : Scanner) → IsScanned s → remaining s ≤ f → test (advance_while test f s) ≡ false
  unfolding advance_while
  advance_while_stops zero s v h = elim (Bool-cases (test s)) [
    | inl on ↦ absurd (unfold peek in omega (arith, lt_of_get_or s.source s.current (safe s on).0))
    | inr off ↦ off
  ]
  advance_while_stops (suc f) s v h = elim (Bool-cases (test s)) [
    | inl on ↦
        let step = advance-Moved s v (safe s on).0 (safe s on).1 in
        rw on (advance_while_stops f (advance s) step.scanned (unfold advance in omega arith))
    | inr off ↦ rw off off
  ]

skip_whitespace_loop-Moved :
    (f : ℕ) (s : Scanner) → IsScanned s → Moved s (skip_whitespace_loop f s)
unfolding skip_whitespace_loop
skip_whitespace_loop-Moved zero s v = stay v
skip_whitespace_loop-Moved (suc f) s v =
    let again =
      λ (t : Scanner) (m : Moved s t). trans m (skip_whitespace_loop-Moved f t m.scanned) in
    let c = peek s in
    if_elim (Moved s) (c == space || c == carriage_return || c == tab)
      (λ e. again _ (advance-Moved s v (ground arith) (ground arith)))
      λ _.
        if_elim (Moved s) (c == newline) (λ e. again _ (advance-newline s v (ground arith)))
          λ _.
            if_elim (Moved s) (c == b'/' && peek_next s == b'/')
              (λ _. again _ (advance_while-Moved in_comment in_comment-IsSafe (remaining s) s v))
              (λ _. stay v)

-- White space, or the start of a comment.
abbrev pub at_blank : Scanner → Bool
at_blank s =
    let c = peek s in
    (c == space || c == carriage_return || c == tab)
    || c == newline
    || (c == b'/' && peek_next s == b'/')

advance_while_progress :
    (test : Scanner → Bool) (safe : IsSafe test) (f : ℕ) (s : Scanner)
    → IsScanned s
    → test s ≡ true
    → 0 < f
    → s.current < (advance_while test f s).current
unfolding advance_while
advance_while_progress test safe zero s v on h = absurd (omega arith)
advance_while_progress test safe (suc f) s v on h =
    let step = advance-Moved s v (safe s on).0 (safe s on).1 in
    let rest = (advance_while-Moved test safe f (advance s) step.scanned).onward in
    rw on (unfold advance in omega arith)

-- With a round for each byte that is left, the loop ends behind all white space and comments.
skip_whitespace_loop_stops :
    (f : ℕ) (s : Scanner)
    → IsScanned s
    → remaining s ≤ f
    → at_blank (skip_whitespace_loop f s) ≡ false
unfolding skip_whitespace_loop peek_next
skip_whitespace_loop_stops zero s v h = rw (get_or_end s.source s.current (omega arith)) refl
skip_whitespace_loop_stops (suc f) s v h =
    let c = peek s in
    let P = λ (t : Scanner). at_blank t ≡ false in
    if_elim P (c == space || c == carriage_return || c == tab)
      (λ e.
        let step = advance-Moved s v (ground arith) (ground arith) in
        skip_whitespace_loop_stops f _ step.scanned (unfold advance in ground arith))
      λ e₁.
        if_elim P (c == newline)
          (λ e.
            let step = advance-newline s v (ground arith) in
            skip_whitespace_loop_stops f _ step.scanned (unfold advance in ground arith))
          λ e₂.
            if_elim P (c == b'/' && peek_next s == b'/')
              (λ e.
                let step = advance_while-Moved in_comment in_comment-IsSafe (remaining s) s v in
                let shorter =
                  advance_while_progress in_comment in_comment-IsSafe (remaining s) s v
                    (unfold is_at_end in ground arith)
                    (unfold peek in ground (arith, lt_of_get_or s.source s.current)) in
                skip_whitespace_loop_stops f _ step.scanned (omega (arith, ap length step.source)))
              (λ e₃. rw (e₁, e₂, e₃) refl)

pub skip_whitespace-Moved : (s : Scanner) → IsScanned s → Moved s (skip_whitespace s)
unfolding skip_whitespace
skip_whitespace-Moved s v = skip_whitespace_loop-Moved (remaining s) s v

pub skip_whitespace_stops : (s : Scanner) → IsScanned s → at_blank (skip_whitespace s) ≡ false
unfolding skip_whitespace
skip_whitespace_stops s v = skip_whitespace_loop_stops (remaining s) s v (omega arith)
