-- ===== src/Scanner/Keywords.antt =====
-- Keyword recognition (`checkKeyword` and `identifierType` of src/compiler/scanner.cc) against
-- the list of the keywords.
use yscript.Prelude.{
  ℕ, ◌+◌, ◌-◌, ◌≤◌, ◌<◌, ◌≡◌, refl, ap, sym, ◌∙◌, List, [], ◌∷◌, arith, ◌==◌, if◌then◌else◌, length,
  length-take, length-drop, drop-take, drop-drop, get_or-take, get_or-drop, get_or, take, drop,
  Bool-cases, inl, inr, true, false, Bool, ◌&&◌, ltb,
}
use mathlib.Core.Path.{subst}
use yscript.Prelude.Bytes.{Bytes, codes, bytes_eq, bytes_eq→eq}
use yscript.Scanner.{
  TokenType, identifier, and, class, else_token, false_token, for_token, fun, if_token, nil, or,
  print, return, super, this, true_token, var, while, Scanner, nul,
}
use yscript.Scanner.Scan.{check_keyword, identifier_type}

abbrev pub keywords : List (Bytes × TokenType)
keywords =
    (codes "and", and)
    ∷ (codes "class", class)
    ∷ (codes "else", else_token)
    ∷ (codes "false", false_token)
    ∷ (codes "for", for_token)
    ∷ (codes "fun", fun)
    ∷ (codes "if", if_token)
    ∷ (codes "nil", nil)
    ∷ (codes "or", or)
    ∷ (codes "print", print)
    ∷ (codes "return", return)
    ∷ (codes "super", super)
    ∷ (codes "this", this)
    ∷ (codes "true", true_token)
    ∷ (codes "var", var)
    ∷ (codes "while", while)
    ∷ []

abbrev pub keyword_in : List (Bytes × TokenType) → Bytes → TokenType
keyword_in [] word = identifier
keyword_in ((key, type) ∷ rest) word = if bytes_eq word key then type else keyword_in rest word

-- The bytes of the current token.
abbrev pub lexeme : Scanner → Bytes
lexeme s = take (s.current - s.start) (drop s.start s.source)

-- A comparison of the rest of the word from its byte `i` on.
abbrev ends : Bytes → ℕ → Bytes → TokenType → TokenType
ends word i rest type = if bytes_eq (drop i word) rest then type else identifier

-- The tests of `identifierType`, on the word alone.
abbrev by_switch : ℕ → ℕ → Bool → Bytes → TokenType
by_switch c second long word =
    if c == b'a'
    then ends word 1 (codes "nd") and
    else if c == b'c'
    then ends word 1 (codes "lass") class
    else if c == b'e'
    then ends word 1 (codes "lse") else_token
    else if c == b'f'
    then (if long && second == b'a'
        then ends word 2 (codes "lse") false_token
        else if long && second == b'o'
        then ends word 2 (codes "r") for_token
        else if long && second == b'u'
        then ends word 2 (codes "n") fun
        else identifier)
    else if c == b'i'
    then ends word 1 (codes "f") if_token
    else if c == b'n'
    then ends word 1 (codes "il") nil
    else if c == b'o'
    then ends word 1 (codes "r") or
    else if c == b'p'
    then ends word 1 (codes "rint") print
    else if c == b'r'
    then ends word 1 (codes "eturn") return
    else if c == b's'
    then ends word 1 (codes "uper") super
    else if c == b't'
    then (if long && second == b'h'
        then ends word 2 (codes "is") this
        else if long && second == b'r'
        then ends word 2 (codes "ue") true_token
        else identifier)
    else if c == b'v'
    then ends word 1 (codes "ar") var
    else if c == b'w'
    then ends word 1 (codes "hile") while
    else identifier

-- A property of a byte holds if it holds of the byte `k`, and of any other.
at_byte {ℓ} : (P : ℕ → Type ℓ) (c k : ℕ) → P k → ((c == k) ≡ false → P c) → P c
at_byte P c k here other = elim (Bool-cases (c == k)) [
  | inl e ↦ subst P (ground arith) here
  | inr n ↦ other n
]

by_switch-f :
    (d : ℕ) (r : Bytes) → by_switch b'f' d true (b'f' ∷ d ∷ r) ≡ keyword_in keywords (b'f' ∷ d ∷ r)
by_switch-f d r =
    let P = λ (x : ℕ). by_switch b'f' x true (b'f' ∷ x ∷ r) ≡ keyword_in keywords (b'f' ∷ x ∷ r) in
    at_byte P d b'a' refl
      λ a. at_byte P d b'o' refl λ o. at_byte P d b'u' refl λ u. rw (a, o, u) refl

by_switch-t :
    (d : ℕ) (r : Bytes) → by_switch b't' d true (b't' ∷ d ∷ r) ≡ keyword_in keywords (b't' ∷ d ∷ r)
by_switch-t d r =
    let P = λ (x : ℕ). by_switch b't' x true (b't' ∷ x ∷ r) ≡ keyword_in keywords (b't' ∷ x ∷ r) in
    at_byte P d b'h' refl λ h. at_byte P d b'r' refl λ e. rw (h, e) refl

-- No keyword has one letter.
by_switch_short : (c d : ℕ) → by_switch c d false (c ∷ []) ≡ keyword_in keywords (c ∷ [])
by_switch_short c d =
    let P = λ (x : ℕ). by_switch x d false (x ∷ []) ≡ keyword_in keywords (x ∷ []) in
    at_byte P c b'a' refl λ a. at_byte P c b'c' refl λ k. at_byte P c b'e' refl λ e.
      at_byte P c b'f' refl λ f. at_byte P c b'i' refl λ i. at_byte P c b'n' refl λ n.
        at_byte P c b'o' refl λ o. at_byte P c b'p' refl λ p. at_byte P c b'r' refl λ q.
          at_byte P c b's' refl λ s. at_byte P c b't' refl λ t.
            at_byte P c b'v' refl
              λ v. at_byte P c b'w' refl λ w. rw (a, k, e, f, i, n, o, p, q, s, t, v, w) refl

by_switch_long :
    (c d : ℕ) (r : Bytes) → by_switch c d true (c ∷ d ∷ r) ≡ keyword_in keywords (c ∷ d ∷ r)
by_switch_long c d r =
    let P = λ (x : ℕ). by_switch x d true (x ∷ d ∷ r) ≡ keyword_in keywords (x ∷ d ∷ r) in
    at_byte P c b'a' refl λ a. at_byte P c b'c' refl λ k. at_byte P c b'e' refl λ e.
      at_byte P c b'f' (by_switch-f d r) λ f. at_byte P c b'i' refl λ i. at_byte P c b'n' refl λ n.
        at_byte P c b'o' refl λ o. at_byte P c b'p' refl λ p. at_byte P c b'r' refl λ q.
          at_byte P c b's' refl λ s. at_byte P c b't' (by_switch-t d r) λ t.
            at_byte P c b'v' refl
              λ v. at_byte P c b'w' refl λ w. rw (a, k, e, f, i, n, o, p, q, s, t, v, w) refl

-- The word of a scanner that has just read a name.
module _ (s : Scanner) (some_read : s.start < s.current)
    (within : s.current ≤ length s.source) where
  word_length : length (lexeme s) ≡ s.current - s.start
  word_length = omega (
    arith,
    length-take (s.current - s.start) (drop s.start s.source),
    length-drop s.start s.source,
  )

  check_keyword-ends :
      (i : ℕ) (rest : Bytes) (type : TokenType)
      → i ≤ length (lexeme s)
      → check_keyword s i (length rest) rest type ≡ ends (lexeme s) i rest type
  unfolding check_keyword
  check_keyword-ends i rest type h = elim (Bool-cases (s.current - s.start == i + length rest)) [
    | inl e ↦
        let size : s.current - s.start ≡ i + length rest = ground arith in
        rw (e, size, drop-take, drop-drop)
    | inr n ↦ rw n (elim (Bool-cases (bytes_eq (drop i (lexeme s)) rest)) [
      | inr differ ↦ rw differ
      | inl same ↦ absurd (
          ground
            (arith, word_length, length-drop i (lexeme s), ap length (bytes_eq→eq _ rest same)))
    ])
  ]

  word_byte :
      (j : ℕ)
      → j < s.current - s.start
      → get_or s.source (s.start + j) nul ≡ get_or (lexeme s) j nul
  word_byte j h = sym (
      get_or-take (s.current - s.start) j (drop s.start s.source) nul h
      ∙ get_or-drop s.start j s.source nul)

  first : get_or s.source s.start nul ≡ get_or (lexeme s) 0 nul
  first = ap (λ n. get_or s.source n nul) (omega arith) ∙ word_byte 0 (omega arith)

  second :
      ltb 1 (s.current - s.start) ≡ true
      → get_or s.source (s.start + 1) nul ≡ get_or (lexeme s) 1 nul
  second h = word_byte 1 (ground arith)

  -- `identifierType` is the switch on the word.
  identifier_type-by_switch :
      identifier_type s
      ≡ by_switch
          (get_or s.source s.start nul)
          (get_or s.source (s.start + 1) nul)
          (ltb 1 (s.current - s.start))
          (lexeme s)
  unfolding identifier_type
  identifier_type-by_switch =
      let one : 1 ≤ length (lexeme s) = omega (arith, word_length) in
      rw
        (
          check_keyword-ends 1 (codes "nd") and one,
          check_keyword-ends 1 (codes "lass") class one,
          check_keyword-ends 1 (codes "lse") else_token one,
          check_keyword-ends 1 (codes "f") if_token one,
          check_keyword-ends 1 (codes "il") nil one,
          check_keyword-ends 1 (codes "r") or one,
          check_keyword-ends 1 (codes "rint") print one,
          check_keyword-ends 1 (codes "eturn") return one,
          check_keyword-ends 1 (codes "uper") super one,
          check_keyword-ends 1 (codes "ar") var one,
          check_keyword-ends 1 (codes "hile") while one,
        )
        (elim (Bool-cases (ltb 1 (s.current - s.start))) [
          | inr short ↦ rw short
          | inl long ↦
              let two : 2 ≤ length (lexeme s) = ground (arith, word_length) in
              rw (
                check_keyword-ends 2 (codes "lse") false_token two,
                check_keyword-ends 2 (codes "r") for_token two,
                check_keyword-ends 2 (codes "n") fun two,
                check_keyword-ends 2 (codes "is") this two,
                check_keyword-ends 2 (codes "ue") true_token two,
              )
        ])

by_switch-keyword_in :
    (word : Bytes) (c d : ℕ) (long : Bool)
    → c ≡ get_or word 0 nul
    → (long ≡ true → d ≡ get_or word 1 nul)
    → long ≡ ltb 1 (length word)
    → 0 < length word
    → by_switch c d long word ≡ keyword_in keywords word
by_switch-keyword_in [] c d long ec ed el h = absurd (omega arith)
by_switch-keyword_in (x ∷ []) c d long ec ed el h = rw (ec, el) (by_switch_short x d)
by_switch-keyword_in (x ∷ y ∷ r) c d long ec ed el h =
    let is_long : long ≡ true = ground arith in rw (ec, is_long, ed is_long) (by_switch_long x y r)

-- Of a word that has been read, at least one byte long and within the text, `identifierType`
-- gives what a search in the list of the sixteen keywords gives.
pub identifier_type-keyword_in :
    (s : Scanner)
    → s.start < s.current
    → s.current ≤ length s.source
    → identifier_type s ≡ keyword_in keywords (lexeme s)
identifier_type-keyword_in s h k =
    identifier_type-by_switch s h k
    ∙ by_switch-keyword_in (lexeme s) _ _ _ (first s h k) (second s h k)
        (ap (ltb 1) (sym (word_length s h k))) (omega (arith, word_length s h k))
