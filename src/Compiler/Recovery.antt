-- ===== src/Compiler/Recovery.antt =====
-- The recovery after an error (`synchronize` of src/compiler/parser.cc).
use yscript.Prelude.{
  ℕ, zero, suc, ◌+◌, ◌≤◌, ◌<◌, ◌≡◌, ◌≢◌, refl, sym, ap, ◌∙◌, ◌⊎◌, inl, inr, Bool, true, false, not,
  ◌&&◌, ◌||◌, some, arith, length, Bool-cases,
}
use yscript.Scanner.{TokenType, is_type}
use mathlib.Core.Path.{subst}
use yscript.Scanner.Types.{is_type→eq, eq→is_type}
use yscript.Scanner.Moves.{IsScanned}
use yscript.Compiler.{State, ◌>>=◌, ◌>>◌}
use yscript.Compiler.Emit.{advance}
use yscript.Compiler.Grammar.{Grammar, while}
use yscript.Compiler.Statements.{starts_statement, is_skipping, synchronize}
use yscript.Compiler.Tokens.{Advanced, advance-Advanced}

-- The tokens with which statements start.
pub data IsStart : TokenType → Type 0 where
  at_class : IsStart TokenType.class
  at_fun : IsStart TokenType.fun
  at_var : IsStart TokenType.var
  at_for : IsStart TokenType.for_token
  at_if : IsStart TokenType.if_token
  at_while : IsStart TokenType.while
  at_print : IsStart TokenType.print
  at_return : IsStart TokenType.return

-- Where a statement may start: at the end of the text, behind a semicolon, or at such a token.
abbrev pub IsResumed : State → Type 0
IsResumed s =
    (s.current.type ≡ TokenType.eof)
    ⊎ (s.previous.type ≡ TokenType.semicolon)
    ⊎ IsStart s.current.type

-- One `advance` after the other, as long as no statement may start, and no further.
pub data Skipped : State → State → Type 0 where
  resumed : {s : State} → IsResumed s → Skipped s s
  skipped :
      {s s₁ s' : State} → ¬ IsResumed s → advance s ≡ some (tt, s₁) → Skipped s₁ s' → Skipped s s'

-- What the recovery does from a state without panic: it skips to the first such place, in the same text, and
-- touches neither the memory nor the compilers.
pub record Recovered (s s' : State) : Type 0 where
  pub skipped_to : Skipped s s'
  pub scanned : IsScanned s'.scanner
  pub source : s'.scanner.source ≡ s.scanner.source
  pub onward : s.scanner.current ≤ s'.scanner.current
  pub memory : s'.memory ≡ s.memory
  pub compilers : s'.compilers ≡ s.compilers

-- The tests of the code.
IsStart→starts_statement : {t : TokenType} → IsStart t → starts_statement t ≡ true
unfolding starts_statement is_type
IsStart→starts_statement at_class = refl
IsStart→starts_statement at_fun = refl
IsStart→starts_statement at_var = refl
IsStart→starts_statement at_for = refl
IsStart→starts_statement at_if = refl
IsStart→starts_statement at_while = refl
IsStart→starts_statement at_print = refl
IsStart→starts_statement at_return = refl

IsStart-type : (t u : TokenType) → is_type t u ≡ true → IsStart u → IsStart t
IsStart-type t u e start = subst IsStart (sym (is_type→eq t u e)) start

IsStart-or :
    (t u : TokenType) (earlier : Bool)
    → (earlier ≡ true → IsStart t)
    → IsStart u
    → (earlier || is_type t u) ≡ true
    → IsStart t
IsStart-or t u earlier before start e = elim (Bool-cases earlier) [
  | inl hit ↦ before hit
  | inr miss ↦ IsStart-type t u (rw miss at e) start
]

starts_statement→IsStart : (t : TokenType) → starts_statement t ≡ true → IsStart t
unfolding starts_statement
starts_statement→IsStart t =
    IsStart-or t _ _
      (IsStart-or t _ _
        (IsStart-or t _ _
          (IsStart-or t _ _
            (IsStart-or t _ _
              (IsStart-or t _ _
                (IsStart-or t _ _ (λ e. IsStart-type t TokenType.class e at_class) at_fun) at_var)
              at_for)
            at_if)
          at_while)
        at_print)
      at_return

abbrev skips : State → Bool
skips s =
    not (is_type s.current.type TokenType.eof)
    && not (is_type s.previous.type TokenType.semicolon)
    && not (starts_statement s.current.type)

-- The test of the loop is whether a statement may not start.
module _ (s : State) where
  IsResumed-stops : IsResumed s → skips s ≡ false
  IsResumed-stops (inl e) = let h = eq→is_type s.current.type TokenType.eof e in ground (arith, h)
  IsResumed-stops (inr (inl e)) =
      let h = eq→is_type s.previous.type TokenType.semicolon e in ground (arith, h)
  IsResumed-stops (inr (inr start)) = let h = IsStart→starts_statement start in ground (arith, h)

  stops-IsResumed : skips s ≡ false → IsResumed s
  stops-IsResumed e = elim (Bool-cases (is_type s.current.type TokenType.eof)) [
    | inl ended ↦ inl (is_type→eq s.current.type TokenType.eof ended)
    | inr more ↦ elim (Bool-cases (is_type s.previous.type TokenType.semicolon)) [
      | inl behind ↦ inr (inl (is_type→eq s.previous.type TokenType.semicolon behind))
      | inr other ↦
          let start : starts_statement s.current.type ≡ true = ground (arith, e, more, other) in
          inr (inr (starts_statement→IsStart s.current.type start))
    ]
  ]

  goes_on : skips s ≡ true → ¬ IsResumed s
  goes_on e resumed_at = let stops = IsResumed-stops resumed_at in cc (e, stops)

not_eof : (t : TokenType) → is_type t TokenType.eof ≡ false → t ≢ TokenType.eof
unfolding is_type
not_eof t h e = let e' : false ≡ true = sym h ∙ ap (λ x. is_type x TokenType.eof) e in cc e'

eof-skips : (s : State) → is_type s.current.type TokenType.eof ≡ true → skips s ≡ false
eof-skips s e = rw e refl

while-stop :
    (f : ℕ) (s : State) → skips s ≡ false → while (suc f) is_skipping advance s ≡ some (tt, s)
unfolding while
while-stop f s e = rw e refl

while-round :
    (f : ℕ) (s s₁ : State)
    → skips s ≡ true
    → advance s ≡ some (tt, s₁)
    → while (suc f) is_skipping advance s ≡ while f is_skipping advance s₁
unfolding while
while-round f s s₁ e run =
    let on : (advance >> while f is_skipping advance) s ≡ while f is_skipping advance s₁ =
      rw (◌>>◌, ◌>>=◌, run) refl in
    rw e on

stopped : (s : State) → IsScanned s.scanner → skips s ≡ false → Recovered s s
stopped s v e = record {
  skipped_to = resumed (stops-IsResumed s e);
  scanned = v;
  source = refl;
  onward = omega arith;
  memory = refl;
  compilers = refl;
}

Advanced-Recovered :
    {s s₁ s' : State}
    → skips s ≡ true
    → advance s ≡ some (tt, s₁)
    → Advanced s s₁
    → Recovered s₁ s'
    → Recovered s s'
Advanced-Recovered {s} e run a r = record {
  skipped_to = skipped (goes_on s e) run r.skipped_to;
  scanned = r.scanned;
  source = r.source ∙ a.source;
  onward = omega (arith, a.onward, r.onward);
  memory = r.memory ∙ a.memory;
  compilers = r.compilers ∙ a.compilers;
}

while-Recovered :
    (f : ℕ) (s : State)
    → IsScanned s.scanner
    → length s.scanner.source + 1 < f + s.scanner.current
    → (s' : State) × (while f is_skipping advance s ≡ some (tt, s')) × Recovered s s'
while-Recovered zero s v h = absurd (omega (arith, v.within))
while-Recovered (suc zero) s v h = absurd (omega (arith, v.within))
while-Recovered (suc (suc f)) s v h = elim (Bool-cases (skips s)) [
  | inr e ↦ (s, while-stop (suc f) s e, stopped s v e)
  | inl e ↦
      let (s₁, run, a, _) = advance-Advanced s v in
      let round = while-round (suc f) s s₁ e run in
      elim (Bool-cases (is_type s₁.current.type TokenType.eof)) [
        | inl ended ↦
            let e₁ = eof-skips s₁ ended in
            (s₁, round ∙ while-stop f s₁ e₁, Advanced-Recovered e run a (stopped s₁ (a.scanned) e₁))
        | inr more ↦
            let size = ap length a.source in
            let taken = a.progress (not_eof s₁.current.type more) in
            let (s', run', r) =
              while-Recovered (suc f) s₁ (a.scanned) (omega (arith, h, size, taken)) in
            (s', round ∙ run', Advanced-Recovered e run a r)
      ]
]

-- From a well formed scanner, with more rounds than bytes that are left and one, synchronize ends, whatever stands
-- in the text. It leaves the panic mode, and then advances up to the first place where the current token is
-- the end of the text or one of `class`, `fun`, `var`, `for`, `if`, `while`, `print` and `return`, or where
-- the previous one is a semicolon, and no further. The text, the memory and the compilers are as before.
pub synchronize-Recovered :
    (g : Grammar) (s : State)
    → IsScanned s.scanner
    → length s.scanner.source + 1 < g.fuel + s.scanner.current
    → (s' : State) × (synchronize g s ≡ some (tt, s'))
      × Recovered (record s { panic_mode = false }) s'
unfolding synchronize
synchronize-Recovered g s v h = while-Recovered g.fuel (record s { panic_mode = false }) v h
