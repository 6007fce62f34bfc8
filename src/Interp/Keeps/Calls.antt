-- ===== src/Interp/Keeps/Calls.antt =====
-- The calls, the methods and the operands keep the bounds (`call` to `concatenate` and the macros of `run` in
-- src/vm/interp/interp.cc).
use yscript.Prelude.{
  ℕ, ◌+◌, ◌<◌, ◌≤◌, ◌≡◌, refl, Bool, true, false, not, arith, ◌==◌, Option, none, some, ◌++◌, leb,
  if◌then◌else◌, length, length-drop, drop,
}
use yscript.Value.{Ptr, Value, obj, Table}
use yscript.Memory.{
  ObjFunction, Obj, bound_method, class, closure, function, instance_of, native, string, upvalue,
  new_instance, Memory, copy_string,
}
use yscript.Prelude.Bytes.{Bytes}
use yscript.Interp.{
  M, ◌>>◌, Machine, wrong_count, stack_overflow, runtime_error, Vm, ◌>>=◌, get, modify, given, pure,
  halt, in_memory, poke, peek, push, pop,
}
use yscript.Interp.Calls.{
  as_obj, class_at, lookup, push_frame, enter, call, clock_native, call_native, call_class,
  call_object, call_value, invoke_from_class, instance_of_value, invoke, bind_method, define_method,
  concatenate, frames_max, keys_of, text_of,
}
use yscript.Interp.Keeps.{
  Goes, Goes-after, Keeps, keeps_rules, Keeps-modify, Keeps-option, Keeps-bind, Keeps-if,
  Keeps-runtime_error, Keeps-get, Keeps-push, Keeps-halt, Keeps-given,
}
use yscript.Interp.Keeps.Heap.{Grown-same, Appends-Grown, copy_string-Appends}
use yscript.Interp.Keeps.Sorted.{IsOpen-append}
use yscript.Interp.Keeps.Knowing.{Knowing-Keeps, Knowing-bind, Knowing-set_object, Keeps-class_then}

pub Keeps-class_at : (p : Ptr) → Keeps (class_at p)
unfolding class_at
Keeps-class_at p = search keeps_rules

pub Keeps-lookup : (table : Table) (name : Ptr) → Keeps (lookup table name)
unfolding lookup
Keeps-lookup table name = record { at = λ vm. (Keeps-given _).at vm }

pub Keeps-instance_of_value : (v : Value) → Keeps (instance_of_value v)
unfolding instance_of_value
Keeps-instance_of_value v =
    Keeps-option (as_obj v) _ _ (search keeps_rules) (λ p. search keeps_rules)

pub Keeps-clock_native : (machine : Machine) → Keeps (clock_native machine)
unfolding clock_native
Keeps-clock_native machine = record {
  at = λ vm. record {
    frames = λ h. h;
    stack = λ h. h;
    same_errors = refl;
    heap = Grown-same refl;
    sorted = λ h. h;
  };
}

pub ruleset lookups =
    (keeps_rules, Keeps-class_at, Keeps-lookup, Keeps-instance_of_value, Keeps-clock_native)

-- With a read object known.
pub ruleset knowing = (lookups, Knowing-bind, Knowing-Keeps, Knowing-set_object)

-- The memory after the text of a new string.
Keeps-copy_string :
    {A : Type 0} (chars : Vm → Bytes) (f : Ptr → M A)
    → ((p : Ptr) → Keeps (f p))
    → Keeps (
        get >>= λ vm. given (copy_string (chars vm) vm.memory) >>= λ (r : Ptr × Memory).
        modify (λ vm. record vm { memory = r.1 }) >> f (r.0))
Keeps-copy_string chars f k = record { at = λ vm. go vm (copy_string (chars vm) vm.memory) refl }
  where
    go :
        (vm : Vm) (copied : Option (Ptr × Memory))
        → copy_string (chars vm) vm.memory ≡ copied
        → Goes vm (
            (given copied >>= λ (r : Ptr × Memory).
            modify (λ vm. record vm { memory = r.1 }) >> f (r.0))
              vm)
    go vm none e = tt
    go vm (some (p, m)) e =
        Goes-after
          (record {
            frames = λ h. h;
            stack = λ h. h;
            same_errors = refl;
            heap = Appends-Grown (copy_string-Appends vm.memory (chars vm) e);
            sorted = λ h.
                let (added, grown) = copy_string-Appends vm.memory (chars vm) e in
                rw grown (IsOpen-append vm.memory.objects added h);
          })
          (f p (record vm { memory = m })) ((k p).at (record vm { memory = m }))

pub Keeps-concatenate : (a b : Ptr) → Keeps (concatenate a b)
unfolding concatenate
Keeps-concatenate a b =
    Keeps-copy_string (λ vm. text_of (keys_of vm a) ++ text_of (keys_of vm b))
      (λ p. do _ ← pop; _ ← pop; push (obj p)) (λ p. search lookups depth 30)

-- The one command that lengthens the frames tests for the end of their array.
entered :
    (p : Ptr) (f : ObjFunction) (n : ℕ) (vm : Vm) (wrong full fits : Bool)
    → (full ≡ false → length vm.frames ≤ frames_max → length vm.frames < frames_max)
    → Goes vm (
        (if wrong
            then runtime_error (wrong_count f.arity n)
            else if full
            then runtime_error stack_overflow
            else if fits
            then modify (push_frame p n)
            else halt)
          vm)
unfolding push_frame
entered p f n vm true full fits room = (Keeps-runtime_error _).at vm
entered p f n vm false true fits room = (Keeps-runtime_error _).at vm
entered p f n vm false false true room = record {
  frames = λ h. omega (arith, room refl h);
  stack = λ h. h;
  same_errors = refl;
  heap = Grown-same refl;
  sorted = λ h. h;
}
entered p f n vm false false false room = tt

Keeps-enter : (p : Ptr) (f : ObjFunction) (n : ℕ) → Keeps (enter p f n)
unfolding enter
Keeps-enter p f n = record {
  at = λ vm.
      entered p f n vm (not (n == f.arity)) (length vm.frames == frames_max)
        (leb (n + 1) (length vm.stack)) (λ e h. ground (arith, h, e));
}

pub Keeps-call : (p : Ptr) (n : ℕ) → Keeps (call p n)
unfolding call
Keeps-call p n = search (lookups, Keeps-enter)

Keeps-call_native : (machine : Machine) (n k : ℕ) → Keeps (call_native machine n k)
unfolding call_native
Keeps-call_native machine n k =
    Keeps-bind (if n == 0 then clock_native machine else halt) _ (search lookups) (λ result.
      Keeps-bind get _ Keeps-get (λ vm.
        Keeps-if (leb (k + 1) (length vm.stack)) _ halt
          (Keeps-bind (modify (λ vm'. record vm' { stack = drop (k + 1) vm'.stack }))
            (λ _. push result)
            (Keeps-modify _ (λ vm'.
              (omega arith, omega (arith, length-drop (k + 1) vm'.stack), refl, refl, refl)))
            (λ u. Keeps-push result))
          Keeps-halt))

ruleset calls = (lookups, Keeps-call, Keeps-call_native)

Keeps-call_class : (klass : Ptr) (methods : Table) (n : ℕ) → Keeps (call_class klass methods n)
unfolding call_class
Keeps-call_class klass methods n =
    Keeps-bind (in_memory (new_instance klass)) _ (search calls) (λ p.
      Keeps-bind (poke n (obj p)) _ (search calls) (λ u. Keeps-bind get _ (search calls) (λ vm.
        Keeps-bind (given vm.init_string) _ (search calls) (λ name.
          Keeps-bind (lookup methods name) _ (search calls) (λ initializer.
            Keeps-option initializer (if n == 0 then pure tt else runtime_error (wrong_count 0 n))
              (λ v. do p ← given (as_obj v); call p n) (search calls) (λ v. search calls))))))

Keeps-call_object :
    (machine : Machine) (p : Ptr) (o : Obj) (n : ℕ) → Keeps (call_object machine p o n)
unfolding call_object
Keeps-call_object machine p (bound_method receiver method) n = search calls
Keeps-call_object machine p (class name methods) n = Keeps-call_class p methods n
Keeps-call_object machine p (closure f upvalues) n = search calls
Keeps-call_object machine p (native k) n = search calls
Keeps-call_object machine p (function f) n = search calls
Keeps-call_object machine p (instance_of klass fields) n = search calls
Keeps-call_object machine p (string s) n = search calls
Keeps-call_object machine p (upvalue l c next) n = search calls

pub Keeps-call_value : (machine : Machine) (v : Value) (n : ℕ) → Keeps (call_value machine v n)
unfolding call_value
Keeps-call_value machine v n =
    Keeps-option (as_obj v) _ _ (search calls) (λ p. search (calls, Keeps-call_object))

pub Keeps-invoke_from_class : (klass name : Ptr) (n : ℕ) → Keeps (invoke_from_class klass name n)
unfolding invoke_from_class
Keeps-invoke_from_class klass name n = Keeps-bind (class_at klass) _ (search calls) (λ c.
    Keeps-bind (lookup c.1 name) _ (search calls) (λ method.
      Keeps-bind get _ (search calls)
        (λ vm. Keeps-option method _ _ (search calls) (λ v. search calls))))

pub Keeps-invoke : (machine : Machine) (name : Ptr) (n : ℕ) → Keeps (invoke machine name n)
unfolding invoke
Keeps-invoke machine name n = Keeps-bind (peek n) _ (search calls) (λ receiver.
    Keeps-bind (instance_of_value receiver) _ (search calls) (λ found.
      Keeps-option found _ _ (search calls) (λ i.
        Keeps-bind (lookup i.2 name) _ (search calls) (λ field.
          Keeps-option field _ _ (Keeps-invoke_from_class _ _ _)
            (λ v. search (calls, Keeps-call_value))))))

pub Keeps-bind_method : (klass name : Ptr) → Keeps (bind_method klass name)
unfolding bind_method
Keeps-bind_method klass name = Keeps-bind (class_at klass) _ (search lookups) (λ c.
    Keeps-bind (lookup c.1 name) _ (search lookups) (λ method.
      Keeps-bind get _ (search lookups)
        (λ vm. Keeps-option method _ _ (search lookups) (λ v. search lookups depth 30))))

pub Keeps-define_method : (name : Ptr) → Keeps (define_method name)
unfolding define_method
Keeps-define_method name = Keeps-bind (peek 0) _ (search lookups) (λ method.
    Keeps-bind (peek 1) _ (search lookups) (λ value.
      Keeps-bind (given (as_obj value)) _ (search lookups)
        (λ klass. Keeps-class_then klass _ (λ class_name methods. search knowing depth 40))))
