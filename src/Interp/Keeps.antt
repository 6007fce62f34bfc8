-- ===== src/Interp/Keeps.antt =====
-- What every command of the interpreter keeps (src/vm/interp/interp.cc): the bounds of its arrays, what has been
-- reported, and the objects. One rule for each way to build a command.
pub mod Heap
pub mod Sorted
pub mod Knowing
pub mod Calls
pub mod Operands
pub mod Objects
pub mod Run
pub mod Bounds
pub mod Types
use mathlib.Core.Path.{subst}
use yscript.Prelude.{
  ℕ, suc, ◌+◌, ◌≤◌, ◌≡◌, refl, sym, ap, ◌∙◌, inl, inr, get_elem?, List, [], ◌∷◌, ◌++◌, Bool, true,
  false, Option, none, some, arith, ◌==◌, ltb, if◌then◌else◌, length, length-set, length-drop, set,
  drop, map, replicate, Bool-cases,
}
use yscript.Value.{Ptr, Value}
use yscript.Table.{init_table}
use yscript.Memory.{
  Obj, bound_method, class, closure, instance_of, Memory, new_instance, new_class, new_closure,
  new_bound_method,
}
use yscript.Interp.{
  CallFrame, TraceLine, Message, Vm, Outcome, returns, fails, stuck, M, ◌>>=◌, ◌>>◌, pure, halt,
  get, modify, given, in_memory, object_at, set_object, stack_max, push, pop, peek, poke,
  RuntimeError, reset_stack, runtime_error, stack_trace,
}
use yscript.Interp.Calls.{frames_max}
use yscript.Interp.Keeps.Sorted.{IsOpen, IsOpen-append}
use yscript.Interp.Keeps.Heap.{fixed, Grown, Grown-same, Grown-trans, Grown-append}

-- Where a command leads that returns: the frames and the stack stay within their arrays, nothing is reported,
-- the list of the open upvalues stays sorted, and no object is lost or becomes another.
pub record Leads (vm vm' : Vm) : Type 0 where
  pub frames : length vm.frames ≤ frames_max → length vm'.frames ≤ frames_max
  pub stack : length vm.stack ≤ stack_max → length vm'.stack ≤ stack_max
  pub same_errors : vm'.errors ≡ vm.errors
  pub heap : Grown vm.memory.objects vm'.memory.objects
  pub sorted :
      IsOpen vm.memory.objects vm.open_upvalues → IsOpen vm'.memory.objects vm'.open_upvalues

-- Where a runtime error leads: it has been reported, and the stacks have been cleared.
pub record Breaks (vm vm' : Vm) : Type 0 where
  pub error : RuntimeError
  pub reported : vm'.errors ≡ vm.errors ++ error ∷ []
  pub no_stack : vm'.stack ≡ []
  pub no_frames : vm'.frames ≡ []
  pub no_open : vm'.open_upvalues ≡ none
  pub heap : Grown vm.memory.objects vm'.memory.objects

abbrev pub Goes : {A : Type 0} → Vm → Outcome A → Type 0
Goes vm (returns a vm') = Leads vm vm'
Goes vm (fails vm') = Breaks vm vm'
Goes vm stuck = Unit

pub record Keeps {A : Type 0} (m : M A) : Type 0 where
  pub at : (vm : Vm) → Goes vm (m vm)

pub Leads-self : (vm : Vm) → Leads vm vm
Leads-self vm = record {
  frames = λ h. h;
  stack = λ h. h;
  same_errors = refl;
  heap = Grown-same refl;
  sorted = λ h. h;
}

pub Goes-after :
    {A : Type 0} {vm vm' : Vm} → Leads vm vm' → (o : Outcome A) → Goes vm' o → Goes vm o
Goes-after l (returns a vm'') g = record {
  frames = λ h. g.frames (l.frames h);
  stack = λ h. g.stack (l.stack h);
  same_errors = g.same_errors ∙ l.same_errors;
  heap = Grown-trans (l.heap) (g.heap);
  sorted = λ h. g.sorted (l.sorted h);
}
Goes-after l (fails vm'') g = record {
  error = g.error;
  reported = g.reported ∙ ap (λ errors. errors ++ g.error ∷ []) l.same_errors;
  no_stack = g.no_stack;
  no_frames = g.no_frames;
  no_open = g.no_open;
  heap = Grown-trans (l.heap) (g.heap);
}
Goes-after l stuck g = tt

module _ {A : Type 0} where
  pub Keeps-pure : (a : A) → Keeps (pure a)
  Keeps-pure a = record { at = Leads-self }

  pub Keeps-halt : Keeps (halt {A = A})
  Keeps-halt = record { at = λ vm. tt }

  pub Keeps-given : (o : Option A) → Keeps (given o)
  Keeps-given none = record { at = λ vm. tt }
  Keeps-given (some a) = record { at = Leads-self }

  pub Keeps-if : (b : Bool) (m n : M A) → Keeps m → Keeps n → Keeps (if b then m else n)
  Keeps-if true m n km kn = km
  Keeps-if false m n km kn = kn

  pub Keeps-runtime_error : (message : Message) → Keeps (runtime_error {A = A} message)
  unfolding runtime_error reset_stack
  Keeps-runtime_error message = record { at = λ vm. go vm (stack_trace vm.memory vm.frames) }
    where
      go :
          (vm : Vm) (trace : Option (List TraceLine))
          → Goes {A = A} vm (elim trace [
            | none ↦ stuck
            | some trace ↦ fails (
                reset_stack (record vm {
                  errors = vm.errors ++ record { message = message; trace = trace } ∷ [];
                }))
          ])
      go vm none = tt
      go vm (some trace) = record {
        error = record { message = message; trace = trace };
        reported = refl;
        no_stack = refl;
        no_frames = refl;
        no_open = refl;
        heap = Grown-same refl;
      }

module _ {A B : Type 0} where
  pub Keeps-bind : (m : M A) (f : A → M B) → Keeps m → ((a : A) → Keeps (f a)) → Keeps (m >>= f)
  Keeps-bind m f km kf = record { at = λ vm. go vm (m vm) (km.at vm) }
    where
      go :
          (vm : Vm) (o : Outcome A)
          → Goes vm o
          → Goes vm (elim o [ returns a vm' ↦ f a vm' | fails vm' ↦ fails vm' | stuck ↦ stuck ])
      go vm (returns a vm') l = Goes-after l (f a vm') ((kf a).at vm')
      go vm (fails vm') l = l
      go vm stuck l = tt

  pub Keeps-option :
      (o : Option A) (m : M B) (f : A → M B)
      → Keeps m
      → ((a : A) → Keeps (f a))
      → Keeps (elim o [ none ↦ m | some a ↦ f a ])
  Keeps-option none m f km kf = km
  Keeps-option (some a) m f km kf = kf a

pub Keeps-get : Keeps get
Keeps-get = record { at = Leads-self }

pub Keeps-object_at : (p : Ptr) → Keeps (object_at p)
Keeps-object_at p = record { at = λ vm. (Keeps-given (get_elem? vm.memory.objects p)).at vm }

-- A change of the machine that lengthens neither array, and leaves the objects alone.
pub Keeps-modify :
    (f : Vm → Vm)
    → ((vm : Vm)
        → ((length (f vm).frames ≤ length vm.frames)
            × (length (f vm).stack ≤ length vm.stack)
            × ((f vm).errors ≡ vm.errors)
            × ((f vm).memory.objects ≡ vm.memory.objects)
            × ((f vm).open_upvalues ≡ vm.open_upvalues)))
    → Keeps (modify f)
Keeps-modify f small = record {
  at = λ vm.
      let (frames, stack, same, objects, opens) = small vm in
      record {
        frames = λ h. omega (arith, h);
        stack = λ h. omega (arith, h);
        same_errors = same;
        heap = Grown-same (ap (map fixed) objects);
        sorted = λ h.
            subst (λ (objects : List Obj). IsOpen objects (f vm).open_upvalues) (sym objects)
              (subst (λ (o : Option Ptr). IsOpen vm.memory.objects o) (sym opens) h);
      };
}

-- A change of neither.
pub Keeps-modify_other :
    (f : Vm → Vm)
    → ((vm : Vm) → (f vm).frames ≡ vm.frames)
    → ((vm : Vm) → (f vm).stack ≡ vm.stack)
    → ((vm : Vm) → (f vm).errors ≡ vm.errors)
    → ((vm : Vm) → (f vm).memory.objects ≡ vm.memory.objects)
    → ((vm : Vm) → (f vm).open_upvalues ≡ vm.open_upvalues)
    → Keeps (modify f)
Keeps-modify_other f frames stack errors objects opens = Keeps-modify f (λ vm. (
  omega (arith, ap length (frames vm)),
  omega (arith, ap length (stack vm)),
  errors vm,
  objects vm,
  opens vm,
))

pub Keeps-push : (v : Value) → Keeps (push v)
unfolding push
Keeps-push v = record {
  at = λ vm. elim (Bool-cases (ltb (length vm.stack) stack_max)) [
    | inl room ↦ rw room (record {
      frames = λ h. h;
      stack = λ h. ground arith;
      same_errors = refl;
      heap = Grown-same refl;
      sorted = λ h. h;
    })
    | inr full ↦ rw full tt
  ];
}

pub Keeps-pop : Keeps pop
unfolding pop
Keeps-pop = record { at = λ vm. go vm vm.stack refl }
  where
    go :
        (vm : Vm) (stack : List Value)
        → vm.stack ≡ stack
        → Goes vm
            (elim stack [ [] ↦ stuck | value ∷ rest ↦ returns value (record vm { stack = rest }) ])
    go vm [] e = tt
    go vm (v ∷ rest) e = record {
      frames = λ h. h;
      stack = λ h. omega (arith, ap length e, h);
      same_errors = refl;
      heap = Grown-same refl;
      sorted = λ h. h;
    }

pub Keeps-peek : (n : ℕ) → Keeps (peek n)
unfolding peek
Keeps-peek n = record { at = λ vm. (Keeps-given (get_elem? vm.stack n)).at vm }

pub Keeps-poke : (n : ℕ) (v : Value) → Keeps (poke n v)
unfolding poke
Keeps-poke n v = record {
  at = λ vm. elim (Bool-cases (ltb n (length vm.stack))) [
    | inl room ↦ rw room (record {
      frames = λ h. h;
      stack = λ h. omega (arith, length-set vm.stack n v, h);
      same_errors = refl;
      heap = Grown-same refl;
      sorted = λ h. h;
    })
    | inr full ↦ rw full tt
  ];
}

-- A new object.
module _ (o : Obj) where
  abbrev Allocates : (Memory → Ptr × Memory) → Type 0
  Allocates f = (m : Memory) → (f m).1.objects ≡ m.objects ++ o ∷ []

  Keeps-in_memory : (f : Memory → Ptr × Memory) → Allocates f → Keeps (in_memory f)
  Keeps-in_memory f appends = record {
    at = λ vm. record {
      frames = λ h. h;
      stack = λ h. h;
      same_errors = refl;
      heap = rw (appends vm.memory) (Grown-append vm.memory.objects (o ∷ []));
      sorted = λ h. rw (appends vm.memory) (IsOpen-append vm.memory.objects (o ∷ []) h);
    };
  }

pub Keeps-new_instance : (klass : Ptr) → Keeps (in_memory (new_instance klass))
unfolding new_instance
Keeps-new_instance klass =
    Keeps-in_memory (instance_of klass init_table) (new_instance klass) (λ m. refl)

pub Keeps-new_class : (name : Ptr) → Keeps (in_memory (new_class name))
unfolding new_class
Keeps-new_class name = Keeps-in_memory (class name init_table) (new_class name) (λ m. refl)

pub Keeps-new_closure : (f : Ptr) (n : ℕ) → Keeps (in_memory (new_closure f n))
unfolding new_closure
Keeps-new_closure f n = Keeps-in_memory (closure f (replicate n none)) (new_closure f n) (λ m. refl)

pub Keeps-new_bound_method : (v : Value) (p : Ptr) → Keeps (in_memory (new_bound_method v p))
unfolding new_bound_method
Keeps-new_bound_method v p = Keeps-in_memory (bound_method v p) (new_bound_method v p) (λ m. refl)

pub ruleset keeps_rules = (
  Keeps-pure, Keeps-halt, Keeps-given, Keeps-if, Keeps-runtime_error, Keeps-bind, Keeps-option,
  Keeps-get, Keeps-object_at, Keeps-modify_other, Keeps-push, Keeps-pop, Keeps-peek, Keeps-poke,
  Keeps-new_instance, Keeps-new_class, Keeps-new_closure, Keeps-new_bound_method,
)
