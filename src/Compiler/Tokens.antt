-- ===== src/Compiler/Tokens.antt =====
-- The token stream of the compiler (`advance` of src/compiler/parser.cc).
use yscript.Prelude.{
  ℕ, zero, suc, ◌+◌, ◌≤◌, ◌<◌, ◌≡◌, ◌≢◌, refl, sym, ap, ◌∙◌, inl, inr, true, false, some, arith,
  if_elim, length, Bool-cases,
}
use mathlib.Core.Path.{subst}
use yscript.Prelude.Bytes.{Bytes}
use yscript.Scanner.{Token, TokenType, is_type}
use yscript.Scanner.Scan.{scan_token}
use yscript.Scanner.Moves.{IsScanned}
use yscript.Scanner.Progress.{scan_token-Scans}
use yscript.Compiler.{State, ◌>>=◌}
use yscript.Compiler.Emit.{text_of, error_at, error_at_current, advance_loop, advance}

-- What `advance` does: it moves on in the same text to a token that is no error, by at least one
-- byte unless that is the end of the text, and touches neither the memory nor the compilers.
pub record Advanced (s s' : State) : Type 0 where
  pub scanned : IsScanned s'.scanner
  pub source : s'.scanner.source ≡ s.scanner.source
  pub solid : is_type s'.current.type TokenType.error ≡ false
  pub onward : s.scanner.current ≤ s'.scanner.current
  pub progress : s'.current.type ≢ TokenType.eof → s.scanner.current < s'.scanner.current
  pub memory : s'.memory ≡ s.memory
  pub compilers : s'.compilers ≡ s.compilers

-- After one more token.
abbrev next_token : State → State
next_token s = record s { current = (scan_token s.scanner).0; scanner = (scan_token s.scanner).1 }

-- The report of an error touches none of these.
record Reported (s s' : State) : Type 0 where
  scanner : s'.scanner ≡ s.scanner
  memory : s'.memory ≡ s.memory
  compilers : s'.compilers ≡ s.compilers
  previous : s'.previous ≡ s.previous

error_at-Reported : (t : Token) (message : Bytes) (s : State) → Reported s (error_at t message s)
unfolding error_at
error_at-Reported t message s =
    if_elim (Reported s) s.panic_mode
      (λ _. record { scanner = refl; memory = refl; compilers = refl; previous = refl })
      (λ _. record { scanner = refl; memory = refl; compilers = refl; previous = refl })

error≢eof : (t : TokenType) → is_type t TokenType.error ≡ true → t ≢ TokenType.eof
unfolding is_type
error≢eof t h e = let e' : true ≡ false = sym h ∙ ap (λ x. is_type x TokenType.error) e in cc e'

-- After an error token that has been reported: a byte further at least.
record Skipped (s s' : State) : Type 0 where
  scanned : IsScanned s'.scanner
  source : s'.scanner.source ≡ s.scanner.source
  taken : s.scanner.current < s'.scanner.current
  memory : s'.memory ≡ s.memory
  compilers : s'.compilers ≡ s.compilers
  previous : s'.previous ≡ s.previous

abbrev skip_error : State → State
skip_error s = error_at (scan_token s.scanner).0 (text_of (scan_token s.scanner).0) (next_token s)

skip_error-Skipped :
    (s : State)
    → IsScanned s.scanner
    → is_type (scan_token s.scanner).0.type TokenType.error ≡ true
    → Skipped s (skip_error s)
skip_error-Skipped s v bad =
    let scans = scan_token-Scans s.scanner v in
    let r =
      error_at-Reported (scan_token s.scanner).0 (text_of (scan_token s.scanner).0)
        (next_token s) in
    let taken = scans.progress (error≢eof (scan_token s.scanner).0.type bad) in
    let place : (skip_error s).scanner.current ≡ (scan_token s.scanner).1.current =
      ap (λ x. x.current) r.scanner in
    record {
      scanned = subst IsScanned (sym r.scanner) scans.scanned;
      source = ap (λ x. x.source) r.scanner ∙ scans.source;
      taken = omega (arith, scans.onward, taken, place);
      memory = r.memory;
      compilers = r.compilers;
      previous = r.previous;
    }

Skipped-Advanced : {s s₁ s' : State} → Skipped s s₁ → Advanced s₁ s' → Advanced s s'
Skipped-Advanced k a = record {
  scanned = a.scanned;
  source = a.source ∙ k.source;
  solid = a.solid;
  onward = omega (arith, a.onward, k.taken);
  progress = λ ne. omega (arith, a.onward, k.taken);
  memory = a.memory ∙ k.memory;
  compilers = a.compilers ∙ k.compilers;
}

-- With more rounds than bytes that are left, the loop ends.
advance_loop-Advanced :
    (f : ℕ) (s : State)
    → IsScanned s.scanner
    → length s.scanner.source < f + s.scanner.current
    → (s' : State) × (advance_loop f s ≡ some (tt, s')) × Advanced s s' × (s'.previous ≡ s.previous)
unfolding advance_loop error_at_current
advance_loop-Advanced zero s v h = absurd (omega (arith, v.within))
advance_loop-Advanced (suc f) s v h =
    let scans = scan_token-Scans s.scanner v in
    let t = (scan_token s.scanner).0 in
    elim (Bool-cases (is_type t.type TokenType.error)) [
      | inr fine ↦ (
        next_token s,
        rw (fine, ◌>>=◌),
        record {
          scanned = scans.scanned;
          source = scans.source;
          solid = fine;
          onward = omega (arith, scans.onward, scans.ordered);
          progress = λ ne. omega (arith, scans.onward, scans.progress ne);
          memory = refl;
          compilers = refl;
        },
        refl,
      )
      | inl bad ↦
          let k = skip_error-Skipped s v bad in
          let size = ap length k.source in
          let (s', run, a, same) =
            advance_loop-Advanced f (skip_error s) k.scanned (omega (arith, h, size, k.taken)) in
          (s', rw (bad, ◌>>=◌) run, Skipped-Advanced k a, same ∙ k.previous)
    ]

-- From a well formed scanner `advance` ends, however many error tokens it has to report: the current
-- token is now the previous one, and the scanner has moved on in the same text to a token that is
-- no error, by a byte at least unless the text has ended; memory and compilers are not touched.
pub advance-Advanced :
    (s : State)
    → IsScanned s.scanner
    → (s' : State) × (advance s ≡ some (tt, s')) × Advanced s s' × (s'.previous ≡ s.current)
unfolding advance
advance-Advanced s v =
    let s₁ : State = record s { previous = s.current } in
    let (s', run, a, same) =
      advance_loop-Advanced (suc (length s.scanner.source)) s₁ v (omega arith) in
    (
      s',
      run,
      record {
        scanned = a.scanned;
        source = a.source;
        solid = a.solid;
        onward = a.onward;
        progress = a.progress;
        memory = a.memory;
        compilers = a.compilers;
      },
      same,
    )
