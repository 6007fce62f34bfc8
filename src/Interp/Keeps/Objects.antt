-- ===== src/Interp/Keeps/Objects.antt =====
-- The instructions on variables, upvalues, properties and classes keep the bounds.
use mathlib.Core.Path.{subst}
use yscript.Prelude.{
  ℕ, zero, suc, ◌+◌, ◌≡◌, refl, sym, ap, ◌∙◌, ◌==◌, if◌then◌else◌, map, set, replicate, length-set,
  inl, inr, List, Option, none, some, leb, length, get_elem?, Bool-cases, Option-cases,
}
use yscript.Value.{Ptr, Value, nil}
use yscript.Memory.{
  Obj, bound_method, class, closure, function, instance_of, native, string, upvalue, slot, own,
  new_upvalue,
}
use yscript.Interp.{
  Vm, Outcome, returns, stuck, get, given, peek, runtime_error, no_fields, no_properties,
  no_superclass, undefined_variable,
}
use yscript.Interp.Upvalues.{
  at_slot, capture_loop, insert_upvalue, inserted, capture_upvalue, close_upvalue, close_loop,
  close_upvalues, as_open, slot_of, is_at, with_next, set_next,
}
use yscript.Interp.Calls.{as_obj, name_of, lookup, instance_of_value, bind_method}
use yscript.Interp.Operands.{read_object, read_byte, current_frame, upvalue_in}
use yscript.Interp.Instructions.{
  get_global, define_global, set_global, get_property, set_property, fill_upvalues, make_closure,
  class_in, inherit,
}
use yscript.Interp.Keeps.{
  Goes, Goes-after, Leads, Leads-self, Keeps, Keeps-option, Keeps-bind, Keeps-get, Keeps-push,
}
use yscript.Interp.Chain.{Opens}
use yscript.Interp.Chain.Capture.{Captured, known, fresh, capture_upvalue-Captured}
use yscript.Interp.Keeps.Sorted.{IsOpen, IsOpen-close_upvalue}
use yscript.Interp.Keeps.Heap.{
  fixed, Grown-same, Grown-trans, Grown-append, KnownAs, KnownAs-read, map-set,
}
use yscript.Interp.Keeps.Knowing.{
  Knowing-bind, Knowing-Keeps, Knowing-set_object, Keeps-class_then, Keeps-instance_then,
  Keeps-closure_then,
}
use yscript.Interp.Keeps.Calls.{knowing, Keeps-bind_method}
use yscript.Interp.Keeps.Operands.{operands}

with_next-fixed : (next : Option Ptr) (o : Obj) → fixed (with_next next o) ≡ fixed o
with_next-fixed next (upvalue location closed _) = refl
with_next-fixed next (class name methods) = refl
with_next-fixed next (bound_method receiver method) = refl
with_next-fixed next (closure f upvalues) = refl
with_next-fixed next (function f) = refl
with_next-fixed next (instance_of klass fields) = refl
with_next-fixed next (native n) = refl
with_next-fixed next (string s) = refl

map-set_next :
    (objects : List Obj) (p : Ptr) (next : Option Ptr)
    → map fixed (set_next objects p next) ≡ map fixed objects
map-set_next objects p next = go (get_elem? objects p) refl
  where
    go :
        (o : Option Obj)
        → get_elem? objects p ≡ o
        → map fixed (elim o [ none ↦ objects | some o ↦ set objects p (with_next next o) ])
          ≡ map fixed objects
    go none e = refl
    go (some o) e =
        map-set objects p (with_next next o)
          (KnownAs-read objects p e ∙ ap some (sym (with_next-fixed next o)))

-- A capture leaves the list sorted.
Captured-IsOpen :
    {local : ℕ} {us : Opens} {vm : Vm} {u : Ptr} {vm' : Vm}
    → IsOpen vm.memory.objects vm.open_upvalues
    → Captured local us vm u vm'
    → IsOpen vm'.memory.objects vm'.open_upvalues
Captured-IsOpen h (known u passed rest e) = h
Captured-IsOpen h (fresh vm' passed rest e above below i) = (_, i.open_now.chain, i.open_now.few)

capture-sorted :
    (vm : Vm) (local : ℕ) {u : Ptr} {vm' : Vm}
    → capture_upvalue local vm ≡ returns u vm'
    → IsOpen vm.memory.objects vm.open_upvalues
    → IsOpen vm'.memory.objects vm'.open_upvalues
capture-sorted vm local {vm' = vm'} run (us, c, few) =
    let (u₁, vm₁, run₁, captured) =
      capture_upvalue-Captured vm us local (record { chain = c; few = few }) in
    let both : returns u₁ vm₁ ≡ returns _ vm' = sym run₁ ∙ run in
    let same : vm₁ ≡ vm' = cc both in
    subst (λ (x : Vm). IsOpen x.memory.objects x.open_upvalues) same
      (Captured-IsOpen (us, c, few) captured)

Goes-insert :
    (vm : Vm) (local : ℕ) (prev next : Option Ptr)
    → capture_upvalue local vm ≡ inserted (insert_upvalue local prev next vm)
    → Goes vm (inserted (insert_upvalue local prev next vm))
unfolding insert_upvalue new_upvalue
Goes-insert vm local none next run = record {
  frames = λ h. h;
  stack = λ h. h;
  same_errors = refl;
  heap = Grown-trans (Grown-append vm.memory.objects _) (Grown-same (map-set_next _ _ next));
  sorted = capture-sorted vm local run;
}
Goes-insert vm local (some p) next run = record {
  frames = λ h. h;
  stack = λ h. h;
  same_errors = refl;
  heap =
      Grown-trans (Grown-append vm.memory.objects _)
        (Grown-same (map-set_next _ p _ ∙ map-set_next _ _ next));
  sorted = capture-sorted vm local run;
}

pub Keeps-capture_upvalue : (local : ℕ) → Keeps (capture_upvalue local)
unfolding capture_upvalue
Keeps-capture_upvalue local = record {
  at = λ vm.
      elim (Option-cases (
        capture_loop (suc (length vm.memory.objects)) vm.memory.objects local none
          vm.open_upvalues)) [
            | inl e ↦ rw (capture_upvalue, e) tt
            | inr ((prev, none), e) ↦
                let run : capture_upvalue local vm ≡ inserted (insert_upvalue local prev none vm) =
                  rw (capture_upvalue, e) refl in
                subst (λ (o : Outcome Ptr). Goes vm o) (sym run)
                  (Goes-insert vm local prev none run)
            | inr ((prev, some u), e) ↦
                elim (Bool-cases (is_at (slot_of vm.memory.objects (some u)) local)) [
                  | inl here ↦ rw (capture_upvalue, e, here) (Leads-self vm)
                  | inr away ↦
                      let run : capture_upvalue local vm
                          ≡ inserted (insert_upvalue local prev (some u) vm) =
                        rw (capture_upvalue, e, away) refl in
                      subst (λ (o : Outcome Ptr). Goes vm o) (sym run)
                        (Goes-insert vm local prev (some u) run)
                ]
          ];
}

as_open-slot :
    (o : Obj) {i : ℕ} {v : Value} {next : Option Ptr}
    → as_open (some o) ≡ some (i, v, next)
    → o ≡ upvalue (slot i) v next
as_open-slot (upvalue (slot j) w n) e = cc e
as_open-slot (upvalue own w n) e = absurd (cc e)
as_open-slot (class name methods) e = absurd (cc e)
as_open-slot (bound_method receiver method) e = absurd (cc e)
as_open-slot (closure f upvalues) e = absurd (cc e)
as_open-slot (function f) e = absurd (cc e)
as_open-slot (instance_of klass fields) e = absurd (cc e)
as_open-slot (native n) e = absurd (cc e)
as_open-slot (string s) e = absurd (cc e)

as_open-at :
    (objects : List Obj) (u : Ptr) {i : ℕ} {v : Value} {next : Option Ptr}
    → as_open (get_elem? objects u) ≡ some (i, v, next)
    → get_elem? objects u ≡ some (upvalue (slot i) v next)
as_open-at objects u e = elim (Option-cases (get_elem? objects u)) [
  | inl missing ↦ absurd (cc (e, ap as_open missing))
  | inr (o, at) ↦ at ∙ ap some (as_open-slot o (sym (ap as_open at) ∙ e))
]

as_open-KnownAs :
    (objects : List Obj) (u : Ptr) {i : ℕ} {v : Value} {next : Option Ptr}
    → as_open (get_elem? objects u) ≡ some (i, v, next)
    → KnownAs objects u (upvalue own nil none)
as_open-KnownAs objects u e = KnownAs-read objects u (as_open-at objects u e)

Goes-eq : {A : Type 0} (vm : Vm) {o : Outcome A} (o' : Outcome A) → o ≡ o' → Goes vm o' → Goes vm o
Goes-eq {A} vm o' e g = subst (λ (x : Outcome A). Goes vm x) (sym e) g

close_loop-Goes : (f last : ℕ) (vm : Vm) → Goes vm (close_loop f last vm)
unfolding close_loop close_upvalue
close_loop-Goes zero last vm = tt
close_loop-Goes (suc f) last vm = elim (Option-cases vm.open_upvalues) [
  | inl e ↦ Goes-eq vm (returns tt vm) (simp (close_loop, e)) (Leads-self vm)
  | inr (u, e) ↦ elim (Option-cases (as_open (get_elem? vm.memory.objects u))) [
    | inl closed ↦ Goes-eq vm stuck (simp (close_loop, e, closed)) tt
    | inr ((i, v, next), open_at) ↦ elim (Bool-cases (leb last i)) [
      | inr below ↦
          Goes-eq vm (returns tt vm) (simp (close_loop, e, open_at, below)) (Leads-self vm)
      | inl from ↦ elim (Option-cases (at_slot vm.stack i)) [
        | inl gone ↦ Goes-eq vm stuck (simp (close_loop, e, open_at, from, gone)) tt
        | inr (value, at_i) ↦
            let known = as_open-KnownAs vm.memory.objects u open_at in
            let closed : Leads vm (close_upvalue u value next vm) = record {
              frames = λ h. h;
              stack = λ h. h;
              same_errors = refl;
              heap = Grown-same (map-set vm.memory.objects u (upvalue own value next) known);
              sorted = λ h.
                  IsOpen-close_upvalue vm u i v value next (as_open-at vm.memory.objects u open_at)
                    e (h.1) (h.2);
            } in
            Goes-eq vm (close_loop f last (close_upvalue u value next vm))
              (simp (close_loop, e, open_at, from, at_i))
              (Goes-after closed _ (close_loop-Goes f last (close_upvalue u value next vm)))
      ]
    ]
  ]
]

pub Keeps-close_upvalues : (last : ℕ) → Keeps (close_upvalues last)
unfolding close_upvalues
Keeps-close_upvalues last = record {
  at = λ vm. close_loop-Goes (suc (length vm.memory.objects)) last vm;
}

ruleset rules = (operands, knowing, Keeps-capture_upvalue, Keeps-close_upvalues, Keeps-bind_method)

pub Keeps-get_global : Keeps get_global
unfolding get_global
Keeps-get_global = Keeps-bind read_object _ (search rules) (λ name.
    Keeps-bind get _ Keeps-get (λ vm. Keeps-bind (lookup vm.globals name) _ (search rules) (λ value.
      Keeps-option value (runtime_error (undefined_variable (name_of vm name))) _ (search rules)
        Keeps-push)))

pub Keeps-define_global : Keeps define_global
unfolding define_global
Keeps-define_global = search rules depth 30

pub Keeps-set_global : Keeps set_global
unfolding set_global
Keeps-set_global = search rules depth 30

pub Keeps-get_property : Keeps get_property
unfolding get_property
Keeps-get_property = Keeps-bind (peek 0) _ (search rules) (λ value.
    Keeps-bind (instance_of_value value) _ (search rules) (λ found.
      Keeps-option found (runtime_error no_properties) _ (search rules) (λ i.
        Keeps-bind read_object _ (search rules) (λ name.
          Keeps-bind (lookup i.2 name) _ (search rules) (λ field.
            Keeps-option field (bind_method i.1 name) _ (search rules)
              (λ v. search rules depth 20))))))

pub Keeps-set_property : Keeps set_property
unfolding set_property
Keeps-set_property = Keeps-bind (peek 1) _ (search rules) (λ target.
    Keeps-instance_then target (runtime_error no_fields) _ (search rules)
      (λ p klass fields. search rules depth 40))

pub Keeps-fill_upvalues : (n i : ℕ) (p : Ptr) → Keeps (fill_upvalues n i p)
unfolding fill_upvalues
Keeps-fill_upvalues zero i p = search rules
Keeps-fill_upvalues (suc n) i p =
    let rest = Keeps-fill_upvalues n (suc i) p in
    Keeps-bind read_byte _ (search rules) (λ is_local.
      Keeps-bind read_byte _ (search rules) (λ index.
        Keeps-bind current_frame _ (search rules) (λ frame.
          Keeps-bind
            (if is_local == 0 then upvalue_in index else capture_upvalue (frame.slots + index)) _
            (search rules)
            (λ u. Keeps-closure_then p _ (λ f upvalues.
              let same : fixed (closure f (set upvalues i (some u))) ≡ fixed (closure f upvalues) =
                ap (λ k. closure f (replicate k none)) (length-set upvalues i (some u)) in
              Knowing-bind p _ _ _ (Knowing-set_object p _ _ same refl)
                (λ _. Knowing-Keeps p _ _ rest))))))

pub Keeps-make_closure : Keeps make_closure
unfolding make_closure
Keeps-make_closure = search (rules, Keeps-fill_upvalues) depth 30

pub Keeps-inherit : Keeps inherit
unfolding inherit
Keeps-inherit = Keeps-bind (peek 1) _ (search rules) (λ superclass.
    Keeps-bind get _ Keeps-get (λ vm.
      Keeps-option (class_in vm superclass) (runtime_error no_superclass) _ (search rules) (λ c.
        Keeps-bind (peek 0) _ (search rules) (λ value.
          Keeps-bind (given (as_obj value)) _ (search rules)
            (λ p. Keeps-class_then p _ (λ name methods. search rules depth 40))))))
