-- ===== src/Interp/Keeps/Sorted.antt =====
-- What keeps the list of the open upvalues of src/vm/interp/interp.cc sorted.
use mathlib.Core.Path.{subst}
use yscript.Prelude.{
  ℕ, ◌≤◌, ◌≡◌, ◌≢◌, refl, sym, ap, ◌∙◌, List, ◌++◌, Bool, true, false, Option, none, some, arith,
  length, length-append, length-set, get_elem?, get_elem?-set_ne, set,
}
use yscript.Value.{Ptr, Value, nil}
use yscript.Memory.{
  Obj, bound_method, class, closure, function, instance_of, native, string, upvalue, slot, own,
}
use yscript.Interp.{Vm}
use yscript.Interp.Upvalues.{close_upvalue}
use yscript.Interp.Chain.{Opens, IsBelow, Chain, end, link}
use yscript.Interp.Chain.Close.{closed-Chain}
use yscript.Interp.Keeps.Heap.{fixed, KnownAs, KnownAs-read, get_elem?-prefix}

-- The list is sorted, and not longer than the objects.
abbrev pub IsOpen : List Obj → Option Ptr → Type 0
IsOpen objects head = (us : Opens) × Chain objects head us × (length us ≤ length objects)

-- A list whose upvalues stay.
Chain-stays :
    {objects objects' : List Obj} {head : Option Ptr} {us : Opens}
    → ((q : Ptr) (j : ℕ) (closed : Value) (next : Option Ptr)
        → get_elem? objects q ≡ some (upvalue (slot j) closed next)
        → get_elem? objects' q ≡ some (upvalue (slot j) closed next))
    → Chain objects head us
    → Chain objects' head us
Chain-stays stays end = end
Chain-stays stays (link {u = u} {i = j} {closed = v} {next = n} e b c) =
    link (stays u j v n e) b (Chain-stays stays c)

pub IsOpen-append :
    (objects added : List Obj) {head : Option Ptr}
    → IsOpen objects head
    → IsOpen (objects ++ added) head
IsOpen-append objects added (us, c, few) = (
  us,
  Chain-stays (λ q j v n e. get_elem?-prefix objects added q e) c,
  omega (arith, few, length-append objects added),
)

abbrev pub is_upvalue : Obj → Bool
is_upvalue (upvalue location closed next) = true
is_upvalue (class name methods) = false
is_upvalue (closure f upvalues) = false
is_upvalue (instance_of klass fields) = false
is_upvalue (bound_method receiver method) = false
is_upvalue (function f) = false
is_upvalue (native n) = false
is_upvalue (string s) = false

-- A write of what no list has.
IsOpen-set :
    (objects : List Obj) (p : Ptr) (o : Obj) {head : Option Ptr}
    → ((j : ℕ) (closed : Value) (next : Option Ptr)
        → get_elem? objects p ≢ some (upvalue (slot j) closed next))
    → IsOpen objects head
    → IsOpen (set objects p o) head
IsOpen-set objects p o apart (us, c, few) = (
  us,
  Chain-stays
      (λ q j v n e.
        get_elem?-set_ne objects o (λ same. apart j v n (ap (get_elem? objects) same ∙ e)) ∙ e)
      c,
  omega (arith, few, length-set objects p o),
)

upvalue-fixed : (o : Obj) → fixed o ≡ upvalue own nil none → is_upvalue o ≡ true
upvalue-fixed (upvalue location closed next) e = refl
upvalue-fixed (class name methods) e = absurd (cc e)
upvalue-fixed (closure f upvalues) e = absurd (cc e)
upvalue-fixed (instance_of klass fields) e = absurd (cc e)
upvalue-fixed (bound_method receiver method) e = absurd (cc e)
upvalue-fixed (function f) e = absurd (cc e)
upvalue-fixed (native n) e = absurd (cc e)
upvalue-fixed (string s) e = absurd (cc e)

pub IsOpen-known :
    (objects : List Obj) (p : Ptr) (o : Obj) {head : Option Ptr}
    → KnownAs objects p (fixed o)
    → is_upvalue o ≡ false
    → IsOpen objects head
    → IsOpen (set objects p o) head
IsOpen-known objects p o e no_upvalue = IsOpen-set objects p o (λ j v n at_p.
    let other : some (upvalue own nil none) ≡ some (fixed o) =
      sym (KnownAs-read objects p at_p) ∙ e in
    let same : fixed o ≡ upvalue own nil none = cc other in
    let is : is_upvalue o ≡ true = upvalue-fixed o same in cc (is, no_upvalue))

-- A closed upvalue gets another value.
pub IsOpen-own :
    (objects : List Obj) (p : Ptr) {head : Option Ptr} {closed : Value} {next : Option Ptr}
    (value : Value)
    → get_elem? objects p ≡ some (upvalue own closed next)
    → IsOpen objects head
    → IsOpen (set objects p (upvalue own value next)) head
IsOpen-own objects p {next = next} value e =
    IsOpen-set objects p (upvalue own value next) (λ j v n at_p. cc (e, at_p))

-- The first upvalue of the list is closed.
module _ (vm : Vm) (u : Ptr) (i : ℕ) (v value : Value) (next : Option Ptr)
    (at_u : get_elem? vm.memory.objects u ≡ some (upvalue (slot i) v next)) where
  pub IsOpen-close_upvalue :
      {head : Option Ptr} {us : Opens}
      → head ≡ some u
      → Chain vm.memory.objects head us
      → length us ≤ length vm.memory.objects
      → IsOpen (close_upvalue u value next vm).memory.objects next
  unfolding close_upvalue
  IsOpen-close_upvalue e end few = absurd (cc e)
  IsOpen-close_upvalue e (link {u = q} {i = j} {closed = w} {next = n} {us = us} at_q b c) few =
      let same : q ≡ u = cc e in
      let both : some (upvalue (slot j) w n) ≡ some (upvalue (slot i) v next) =
        sym at_q ∙ ap (get_elem? vm.memory.objects) same ∙ at_u in
      let slots : j ≡ i = cc both in
      let nexts : n ≡ next = cc both in
      (
        us,
        closed-Chain vm u i v value next at_u us
            (subst (λ (x : Option Ptr). Chain vm.memory.objects x us) nexts c)
            (subst (λ (x : ℕ). IsBelow x us) slots b),
        omega (arith, few, length-set vm.memory.objects u (upvalue own value next)),
      )
