-- ===== src/Tests/Upvalues.antt =====
-- The list of the open upvalues at concrete machines.
use yscript.Prelude.{◌≡◌, refl, List, [], ◌∷◌, none, some, arith}
use yscript.Value.{Ptr, number, nil}
use yscript.Memory.{Obj, upvalue, slot, own}
use yscript.Interp.{Vm, Outcome, returns, fails, stuck}
use yscript.Interp.Upvalues.{capture_upvalue, close_upvalues}
use yscript.Interp.Chain.{Opens, end, link}
use yscript.Interp.Chain.Capture.{Captured, capture_upvalue-Captured}
use yscript.Interp.Chain.Insert.{HasOpen}
use yscript.Interp.Chain.Shared.{capture_upvalue-again}
use yscript.Interp.Chain.Close.{Closed, close_upvalues-Closed}

-- Three values, with open upvalues on the slots 2 and 0.
abbrev two_open : Vm
two_open = record {
  memory = record {
    objects = upvalue (slot 2) nil (some 1) ∷ upvalue (slot 0) nil none ∷ [];
    strings = record { count = 0; capacity = 0; entries = [] };
  };
  stack = number 12 ∷ number 11 ∷ number 10 ∷ [];
  frames = [];
  globals = record { count = 0; capacity = 0; entries = [] };
  init_string = none;
  open_upvalues = some 0;
  clock_calls = 0;
  printed = [];
  errors = [];
}

abbrev opens : Opens
opens = (0, 2) ∷ (1, 0) ∷ []

two_open-HasOpen : HasOpen two_open opens
two_open-HasOpen = record { chain = link refl (omega arith) (link refl tt end); few = omega arith }

abbrev objects_of : {A : Type 0} → Outcome A → List Obj
objects_of (returns _ vm) = vm.memory.objects
objects_of (fails vm) = []
objects_of stuck = []

captured_between :
    objects_of (capture_upvalue 1 two_open)
    ≡ upvalue (slot 2) nil (some 2) ∷ upvalue (slot 0) nil none ∷ upvalue (slot 1) nil (some 1) ∷ []
unfolding capture_upvalue
captured_between = refl

captured_again : objects_of (capture_upvalue 0 two_open) ≡ two_open.memory.objects
unfolding capture_upvalue
captured_again = refl

closed_above :
    objects_of (close_upvalues 1 two_open)
    ≡ upvalue own (number 12) (some 1) ∷ upvalue (slot 0) nil none ∷ []
unfolding close_upvalues
closed_above = refl

capture_upvalue-Captured_example :
    (u : Ptr) × (vm' : Vm) × (capture_upvalue 1 two_open ≡ returns u vm')
    × Captured 1 opens two_open u vm'
capture_upvalue-Captured_example = capture_upvalue-Captured two_open opens 1 two_open-HasOpen

close_upvalues-Closed_example :
    (vm' : Vm) × (close_upvalues 1 two_open ≡ returns tt vm') × Closed 1 opens two_open vm'
close_upvalues-Closed_example =
    close_upvalues-Closed 1 opens two_open two_open-HasOpen (omega arith, (omega arith, tt))

capture_upvalue-again_example :
    (u : Ptr) × (vm' : Vm) × (capture_upvalue 1 two_open ≡ returns u vm')
    × (capture_upvalue 1 vm' ≡ returns u vm')
capture_upvalue-again_example = capture_upvalue-again two_open opens 1 two_open-HasOpen
