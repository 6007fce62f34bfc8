-- ===== src/Interp/Keeps/Knowing.antt =====
-- The commands of src/vm/interp/interp.cc that write an object which they have read before.
use mathlib.Core.Path.{subst}
use yscript.Prelude.{false, ◌≡◌, refl, sym, ap, ◌∙◌, List, Option, none, some, get_elem?}
use yscript.Value.{Ptr, Value, bool, nil, number, obj, Table}
use yscript.Memory.{
  Obj, bound_method, class, closure, function, instance_of, native, string, upvalue,
}
use yscript.Interp.{
  Vm, Outcome, returns, fails, stuck, M, ◌>>=◌, given, object_at, set_object, as_closure,
}
use yscript.Interp.Calls.{as_class, class_at, as_instance, instance_of_value}
use yscript.Interp.Keeps.{Goes, Goes-after, Keeps}
use yscript.Interp.Keeps.Sorted.{is_upvalue, IsOpen-known}
use yscript.Interp.Keeps.Heap.{
  no_entries, fixed, Grown-same, KnownAs, KnownAs-Grown, KnownAs-read, map-set,
}

-- What a command keeps where the object at `p` is known.
pub record Knowing (p : Ptr) (known : Obj) {A : Type 0} (m : M A) : Type 0 where
  pub at : (vm : Vm) → KnownAs vm.memory.objects p known → Goes vm (m vm)

module _ (p : Ptr) (known : Obj) where
  pub Knowing-Keeps : {A : Type 0} (m : M A) → Keeps m → Knowing p known m
  Knowing-Keeps m k = record { at = λ vm e. k.at vm }

  pub Knowing-bind :
      {A B : Type 0} (m : M A) (f : A → M B)
      → Knowing p known m
      → ((a : A) → Knowing p known (f a))
      → Knowing p known (m >>= f)
  Knowing-bind {A} m f km kf = record { at = λ vm e. go vm e (m vm) (km.at vm e) }
    where
      go :
          (vm : Vm)
          → KnownAs vm.memory.objects p known
          → (o : Outcome A) → Goes vm o
          → Goes vm (elim o [ returns a vm' ↦ f a vm' | fails vm' ↦ fails vm' | stuck ↦ stuck ])
      go vm e (returns a vm') l =
          Goes-after l (f a vm') ((kf a).at vm' (KnownAs-Grown p e (l.heap)))
      go vm e (fails vm') l = l
      go vm e stuck l = tt

  pub Knowing-set_object :
      (o : Obj) → fixed o ≡ known → is_upvalue o ≡ false → Knowing p known (set_object p o)
  Knowing-set_object o same no_upvalue = record {
    at = λ vm e. record {
      frames = λ h. h;
      stack = λ h. h;
      same_errors = refl;
      heap = Grown-same (map-set vm.memory.objects p o (e ∙ ap some (sym same)));
      sorted = IsOpen-known vm.memory.objects p o (e ∙ ap some (sym same)) no_upvalue;
    };
  }

  pub Knowing-given :
      {A B : Type 0} (o : Option A) (f : A → M B)
      → ((a : A) → o ≡ some a → Knowing p known (f a))
      → Knowing p known (given o >>= f)
  Knowing-given none f k = record { at = λ vm e. tt }
  Knowing-given (some a) f k = record { at = λ vm e. (k a refl).at vm e }

pub Keeps-assoc :
    {A B C : Type 0} (m : M A) (f : A → M B) (g : B → M C)
    → Keeps (m >>= λ a. f a >>= g)
    → Keeps ((m >>= f) >>= g)
Keeps-assoc {A} {B} m f g k = record { at = λ vm. go vm (m vm) (k.at vm) }
  where
    go :
        (vm : Vm) (o : Outcome A)
        → Goes vm
            (elim o [ returns a vm' ↦ (f a >>= g) vm' | fails vm' ↦ fails vm' | stuck ↦ stuck ])
        → Goes vm
            (elim (elim o as (λ x. Outcome B) [
              | returns a vm' ↦ f a vm'
              | fails vm' ↦ fails vm'
              | stuck ↦ stuck
            ]) [ returns b vm' ↦ g b vm' | fails vm' ↦ fails vm' | stuck ↦ stuck ])
    go vm (returns a vm') l = l
    go vm (fails vm') l = l
    go vm stuck l = tt

-- The object at an address, as it is when it is read.
pub Keeps-reading :
    {A : Type 0} (p : Ptr) (f : Obj → M A)
    → ((vm : Vm) (o : Obj) → get_elem? vm.memory.objects p ≡ some o → Goes vm (f o vm))
    → Keeps (object_at p >>= f)
Keeps-reading p f k = record { at = λ vm. go vm (get_elem? vm.memory.objects p) refl }
  where
    go :
        (vm : Vm) (o : Option Obj)
        → get_elem? vm.memory.objects p ≡ o
        → Goes vm ((given o >>= f) vm)
    go vm none e = tt
    go vm (some o) e = k vm o e

-- The object at an address is known to what follows.
pub Keeps-object_then :
    {A : Type 0} (p : Ptr) (f : Obj → M A)
    → ((o : Obj) → Knowing p (fixed o) (f o))
    → Keeps (object_at p >>= f)
Keeps-object_then p f k =
    Keeps-reading p f (λ vm o e. (k o).at vm (KnownAs-read vm.memory.objects p e))

as_class-fixed :
    (o : Obj) {name : Ptr} {methods : Table}
    → as_class o ≡ some (name, methods)
    → (methods' : Table) → fixed (class name methods') ≡ fixed o
as_class-fixed (class name methods) e methods' = cc e
as_class-fixed (bound_method receiver method) e methods' = absurd (cc e)
as_class-fixed (closure f upvalues) e methods' = absurd (cc e)
as_class-fixed (native k) e methods' = absurd (cc e)
as_class-fixed (function f) e methods' = absurd (cc e)
as_class-fixed (instance_of klass fields) e methods' = absurd (cc e)
as_class-fixed (string s) e methods' = absurd (cc e)
as_class-fixed (upvalue l c next) e methods' = absurd (cc e)

pub Keeps-class_then :
    {A : Type 0} (p : Ptr) (f : Ptr × Table → M A)
    → ((name : Ptr) (methods : Table) → Knowing p (class name no_entries) (f (name, methods)))
    → Keeps (class_at p >>= f)
unfolding class_at
Keeps-class_then p f k =
    Keeps-assoc (object_at p) (λ o. given (as_class o)) f
      (Keeps-object_then p (λ o. given (as_class o) >>= f)
        (λ o. Knowing-given p (fixed o) (as_class o) f (λ c e.
          let same = as_class-fixed o e no_entries in
          subst (λ (x : Obj). Knowing p x (f c)) same (k (c.0) (c.1)))))

-- The instance in a value is known to what follows.
as_instance-then :
    {A : Type 0} (p : Ptr) (o : Obj) (m : M A) (f : Ptr × Ptr × Table → M A)
    → Keeps m
    → ((klass : Ptr) (fields : Table)
        → Knowing p (instance_of klass no_entries) (f (p, klass, fields)))
    → Knowing p
        (fixed o)
        (elim (elim (as_instance o) as (λ x. Option (Ptr × Ptr × Table)) [
          | none ↦ none
          | some (klass, fields) ↦ some (p, klass, fields)
        ]) [ none ↦ m | some i ↦ f i ])
as_instance-then p (instance_of klass fields) m f km k = k klass fields
as_instance-then p (class name methods) m f km k = Knowing-Keeps p _ m km
as_instance-then p (bound_method receiver method) m f km k = Knowing-Keeps p _ m km
as_instance-then p (closure g upvalues) m f km k = Knowing-Keeps p _ m km
as_instance-then p (native n) m f km k = Knowing-Keeps p _ m km
as_instance-then p (function g) m f km k = Knowing-Keeps p _ m km
as_instance-then p (string s) m f km k = Knowing-Keeps p _ m km
as_instance-then p (upvalue l c next) m f km k = Knowing-Keeps p _ m km

pub Keeps-instance_then :
    {A : Type 0} (value : Value) (m : M A) (f : Ptr × Ptr × Table → M A)
    → Keeps m
    → ((p klass : Ptr) (fields : Table)
        → Knowing p (instance_of klass no_entries) (f (p, klass, fields)))
    → Keeps (instance_of_value value >>= λ found. elim found [ none ↦ m | some i ↦ f i ])
unfolding instance_of_value
Keeps-instance_then (bool b) m f km k = km
Keeps-instance_then nil m f km k = km
Keeps-instance_then (number n) m f km k = km
Keeps-instance_then (obj p) m f km k =
    Keeps-assoc (object_at p) _ _ (Keeps-object_then p _ (λ o. as_instance-then p o m f km (k p)))

closure_then :
    {A : Type 0} (p : Ptr) (o : Obj) (f : Ptr × List (Option Ptr) → M A)
    → ((g : Ptr) (upvalues : List (Option Ptr))
        → Knowing p (fixed (closure g upvalues)) (f (g, upvalues)))
    → Knowing p (fixed o) (given (as_closure (some o)) >>= f)
closure_then p (closure g upvalues) f k = record { at = (k g upvalues).at }
closure_then p (class name methods) f k = record { at = λ vm e. tt }
closure_then p (bound_method receiver method) f k = record { at = λ vm e. tt }
closure_then p (instance_of klass fields) f k = record { at = λ vm e. tt }
closure_then p (native n) f k = record { at = λ vm e. tt }
closure_then p (function g) f k = record { at = λ vm e. tt }
closure_then p (string s) f k = record { at = λ vm e. tt }
closure_then p (upvalue l c next) f k = record { at = λ vm e. tt }

-- The closure at an address is known to what follows.
pub Keeps-closure_then :
    {A : Type 0} (p : Ptr) (f : Ptr × List (Option Ptr) → M A)
    → ((g : Ptr) (upvalues : List (Option Ptr))
        → Knowing p (fixed (closure g upvalues)) (f (g, upvalues)))
    → Keeps (object_at p >>= λ o. given (as_closure (some o)) >>= f)
Keeps-closure_then p f k = Keeps-object_then p _ (λ o. closure_then p o f k)
