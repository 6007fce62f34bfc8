-- ===== src/Tests/Programs.antt =====
-- Whole programs, compiled and run, with natural numbers for doubles.
use yscript.Prelude.{
  ℕ, Bool, ◌+◌, ◌-◌, ◌*◌, ◌/◌, ◌≡◌, refl, List, [], ◌∷◌, Option, none, some, ◌==◌, ltb, leb, ◌&&◌,
  if◌then◌else◌,
}
use yscript.Prelude.Bytes.{Bytes, codes}
use yscript.Value.{Value, number, nil, obj}
use yscript.Interp.{Machine, Vm, RuntimeError, Outcome, returns, fails, stuck, undefined_variable}
use yscript.Interp.Interpret.{
  InterpretResult, Progress, answered, running, uncompiled, undefined, interpret_ok,
  interpret_runtime_error, interpret, init_vm, blank_vm,
}

abbrev pub small_numbers : Machine
small_numbers = record {
  double_eq = ◌==◌;
  double_gt = λ a b. ltb b a;
  double_lt = ltb;
  double_add = ◌+◌;
  double_sub = ◌-◌;
  double_mul = ◌*◌;
  double_div = ◌/◌;
  double_neg = λ a. a;
  clock = λ n. n;
}

abbrev pub is_numeral : ℕ → Bool
is_numeral c = leb b'0' c && leb c b'9'

-- The digits at the front of a text.
abbrev pub decimal : Bytes → ℕ → ℕ
decimal [] n = n
decimal (c ∷ cs) n = if is_numeral c then decimal cs (n * 10 + (c - b'0')) else n

abbrev vm_of : Outcome (Unit {0}) → Vm
vm_of (returns _ vm) = vm
vm_of (fails vm) = vm
vm_of stuck = blank_vm

abbrev output_of : Progress → Option (InterpretResult × List Value × List RuntimeError)
output_of (answered r vm) = some (r, vm.printed, vm.errors)
output_of (running vm) = none
output_of uncompiled = none
output_of undefined = none

abbrev output : Bytes → Option (InterpretResult × List Value × List RuntimeError)
output source =
    output_of
      (interpret small_numbers (λ text. decimal text 0) 30 300 source (vm_of (init_vm blank_vm)))

-- Two calls of a closure share the variable that outlives its scope.
closure_counts :
    output (
      codes
        "fun f(a) { var x = a; fun g() { x = x + 1; return x; } return g; } var h = f(1); print h(); print h();")
    ≡ some (interpret_ok, number 2 ∷ number 3 ∷ [], [])
unfolding interpret init_vm
closure_counts = refl

-- An initializer, a field, and a method that calls the one it overrides.
methods_run :
    output (
      codes
        "class A { init(n) { this.n = n; } get() { return this.n; } } class B : A { get() { return super.get() + 1; } } print B(5).get();")
    ≡ some (interpret_ok, number 6 ∷ [], [])
unfolding interpret init_vm
methods_run = refl

loops_run :
    output (
      codes
        "var s = 0; for (var i = 0; i < 4; i = i + 1) { if (i == 2) print nil; s = s + i; } print s;")
    ≡ some (interpret_ok, nil ∷ number 6 ∷ [], [])
unfolding interpret init_vm
loops_run = refl

-- The trace of an error has the lines and the names of the functions.
undefined_in_call :
    output (codes "fun f() {\n return y; }\n f();")
    ≡ some (
      interpret_runtime_error,
      [],
      record {
        message = undefined_variable (codes "y");
        trace =
            record { line = 2; name = some (codes "f") } ∷ record { line = 3; name = none } ∷ [];
      }
          ∷ [],
    )
unfolding interpret init_vm
undefined_in_call = refl

abbrev stack_after : Progress → Option (List Value)
stack_after (running vm) = some vm.stack
stack_after (answered r vm) = none
stack_after uncompiled = none
stack_after undefined = none

-- A loop without an end goes on; the script is at the bottom of the stack.
endless_goes_on :
    stack_after
      (interpret small_numbers (λ text. decimal text 0) 30 300 (codes "while (true) {}") blank_vm)
    ≡ some (obj 1 ∷ [])
unfolding interpret blank_vm
endless_goes_on = refl
