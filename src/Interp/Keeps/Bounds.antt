-- ===== src/Interp/Keeps/Bounds.antt =====
-- `run` and `interpret` of src/vm/interp/interp.cc: the bounds of the arrays, and how errors end.
use yscript.Prelude.{
  Bool, true, false, ◌≡◌, ap, ◌∙◌, [], ◌∷◌, ◌++◌, ℕ, ◌≤◌, refl, inl, inr, List, none, some, length,
  Option-cases,
}
use yscript.Prelude.Bytes.{Bytes}
use yscript.Interp.{Machine, RuntimeError, Vm, Outcome, returns, fails, stuck, stack_max}
use yscript.Compiler.Compile.{compile, start_state}
use yscript.Interp.Calls.{frames_max}
use yscript.Interp.Run.{step, run}
use yscript.Interp.Interpret.{
  compile_in, start_script, result_of, interpret, interpret_ok, interpret_compile_error,
  interpret_runtime_error, Progress, answered, running, uncompiled, undefined,
}
use yscript.Interp.Keeps.{Goes}
use yscript.Interp.Keeps.Run.{Keeps-step, Keeps-run, Keeps-start_script}

-- The frames and the stack are within their arrays, and `errors` have been reported.
pub record Within (errors : List RuntimeError) (vm : Vm) : Type 0 where
  pub frames : length vm.frames ≤ frames_max
  pub stack : length vm.stack ≤ stack_max
  pub same_errors : vm.errors ≡ errors

-- A runtime error: it has been reported behind `errors`, and the stacks have been cleared.
pub record Failed (errors : List RuntimeError) (vm : Vm) : Type 0 where
  pub error : RuntimeError
  pub reported : vm.errors ≡ errors ++ error ∷ []
  pub no_stack : vm.stack ≡ []
  pub no_frames : vm.frames ≡ []
  pub no_open : vm.open_upvalues ≡ none

abbrev pub Ends : {A : Type 0} → List RuntimeError → Outcome A → Type 0
Ends errors (returns a vm) = Within errors vm
Ends errors (fails vm) = Failed errors vm
Ends errors stuck = Unit

Goes-Ends :
    {A : Type 0} (errors : List RuntimeError) (vm : Vm)
    → Within errors vm
    → (o : Outcome A) → Goes vm o
    → Ends errors o
Goes-Ends errors vm w (returns a vm') l = record {
  frames = l.frames (w.frames);
  stack = l.stack (w.stack);
  same_errors = l.same_errors ∙ w.same_errors;
}
Goes-Ends errors vm w (fails vm') l = record {
  error = l.error;
  reported = l.reported ∙ ap (λ es. es ++ l.error ∷ []) w.same_errors;
  no_stack = l.no_stack;
  no_frames = l.no_frames;
  no_open = l.no_open;
}
Goes-Ends errors vm w stuck l = tt

-- In any machine with at most 64 frames and 16384 values, an instruction that does not get stuck ends within
-- these bounds, having reported nothing, or with a runtime error: one more error is reported, and the
-- stack, the frames and the open upvalues are cleared.
pub step-Ends :
    (machine : Machine) (vm : Vm)
    → length vm.frames ≤ frames_max
    → length vm.stack ≤ stack_max
    → Ends vm.errors (step machine vm)
step-Ends machine vm frames stack =
    Goes-Ends vm.errors vm (record { frames = frames; stack = stack; same_errors = refl })
      (step machine vm) ((Keeps-step machine).at vm)

-- Where `interpret` is: what it has answered, or how far it has come.
abbrev pub Answers : List RuntimeError → Progress → Type 0
Answers errors (answered interpret_ok vm) = Within errors vm
Answers errors (answered interpret_compile_error vm) = Within errors vm
Answers errors (answered interpret_runtime_error vm) = Failed errors vm
Answers errors (running vm) = Within errors vm
Answers errors uncompiled = Unit
Answers errors undefined = Unit

result_of-Answers :
    (errors : List RuntimeError) (o : Outcome Bool) → Ends errors o → Answers errors (result_of o)
unfolding result_of
result_of-Answers errors (returns true vm) e = e
result_of-Answers errors (returns false vm) e = e
result_of-Answers errors (fails vm) e = e
result_of-Answers errors stuck e = tt

started :
    (machine : Machine) (rounds : ℕ) (errors : List RuntimeError) (o : Outcome (Unit {0}))
    → Ends errors o
    → Answers errors (elim o [
      | returns _ vm ↦ result_of (run machine rounds vm)
      | fails vm ↦ undefined
      | stuck ↦ undefined
    ])
started machine rounds errors (returns _ vm) e =
    result_of-Answers errors (run machine rounds vm)
      (Goes-Ends errors vm e (run machine rounds vm) ((Keeps-run machine rounds).at vm))
started machine rounds errors (fails vm) e = tt
started machine rounds errors stuck e = tt

-- In any machine with at most 64 frames and 16384 values, for any text that the compiler ends with, and after any
-- number of instructions: unless it has got stuck, `interpret` has answered `INTERPRET_OK` or
-- `INTERPRET_COMPILE_ERROR` within these bounds and with no runtime error reported; or it has answered
-- `INTERPRET_RUNTIME_ERROR` with one more error reported and the stack, the frames and the open
-- upvalues cleared; or it goes on, within these bounds and with no runtime error reported.
pub interpret-Answers :
    (machine : Machine) (strtod : Bytes → ℕ) (fuel rounds : ℕ) (source : Bytes) (vm : Vm)
    → length vm.frames ≤ frames_max
    → length vm.stack ≤ stack_max
    → Answers vm.errors (interpret machine strtod fuel rounds source vm)
unfolding interpret compile_in
interpret-Answers machine strtod fuel rounds source vm frames stack =
    elim (Option-cases
      (compile strtod fuel source (record (start_state strtod) { memory = vm.memory }))) [
        | inl e ↦ rw (interpret, compile_in, e) tt
        | inr ((none, s), e) ↦
            rw (interpret, compile_in, e)
              (record { frames = frames; stack = stack; same_errors = refl })
        | inr ((some p, s), e) ↦
            let compiled : Vm = record vm { memory = s.memory } in
            rw (interpret, compile_in, e)
              (started machine rounds vm.errors (start_script p compiled) (
                Goes-Ends vm.errors compiled
                  (record { frames = frames; stack = stack; same_errors = refl })
                  (start_script p compiled) ((Keeps-start_script p).at compiled)))
      ]
