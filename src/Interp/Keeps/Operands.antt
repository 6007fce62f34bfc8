-- ===== src/Interp/Keeps/Operands.antt =====
-- What the instructions read and compute keeps the bounds.
use yscript.Prelude.{
  ℕ, ◌≡◌, refl, inl, inr, List, [], ◌∷◌, arith, ltb, length, get_elem?, some, Bool-cases,
}
use yscript.Value.{Ptr, Value}
use yscript.Memory.{
  Obj, bound_method, class, closure, function, instance_of, native, string, upvalue, slot, own,
}
use yscript.Interp.{
  Machine, Vm, ◌>>=◌, object_at, CallFrame, get, peek, runtime_error, no_numbers, no_operands,
}
use yscript.Interp.Upvalues.{with_slot, load_slot, store_slot}
use yscript.Interp.Operands.{
  current_frame, update_first, set_ip, current_chunk, read_byte, read_offset, read_constant,
  read_object, upvalue_in, load_upvalue, store_upvalue, as_number, binary_op, string_in,
  add_numbers, add,
}
use yscript.Interp.Keeps.{Goes, Keeps, Keeps-modify, Keeps-option, Keeps-bind, Keeps-given}
use yscript.Interp.Keeps.Heap.{Grown-same, KnownAs-read, map-set}
use yscript.Interp.Keeps.Knowing.{Keeps-reading}
use yscript.Interp.Keeps.Sorted.{IsOpen-own}
use yscript.Interp.Keeps.Calls.{lookups, Keeps-concatenate, Keeps-bind_method}

length-update_first :
    (f : CallFrame → CallFrame) (fs : List CallFrame) → length (update_first f fs) ≡ length fs
length-update_first f [] = refl
length-update_first f (x ∷ fs) = refl

pub Keeps-current_frame : Keeps current_frame
unfolding current_frame
Keeps-current_frame = record { at = λ vm. (Keeps-given _).at vm }

pub Keeps-set_ip : (ip : ℕ) → Keeps (set_ip ip)
unfolding set_ip
Keeps-set_ip ip = Keeps-modify _ (λ vm. (
  omega (arith, length-update_first (λ f. record f { ip = ip }) vm.frames),
  omega arith,
  refl,
  refl,
  refl,
))

ruleset frames_rules = (lookups, Keeps-current_frame, Keeps-set_ip)

pub Keeps-current_chunk : Keeps current_chunk
unfolding current_chunk
Keeps-current_chunk = search frames_rules depth 20

pub Keeps-read_byte : Keeps read_byte
unfolding read_byte
Keeps-read_byte = search (frames_rules, Keeps-current_chunk) depth 20

pub Keeps-read_offset : Keeps read_offset
unfolding read_offset
Keeps-read_offset = search (frames_rules, Keeps-current_chunk) depth 20

pub Keeps-read_constant : Keeps read_constant
unfolding read_constant
Keeps-read_constant = search (frames_rules, Keeps-current_chunk, Keeps-read_byte) depth 20

pub Keeps-read_object : Keeps read_object
unfolding read_object
Keeps-read_object = search (lookups, Keeps-read_constant) depth 20

pub Keeps-upvalue_in : (i : ℕ) → Keeps (upvalue_in i)
unfolding upvalue_in
Keeps-upvalue_in i = search frames_rules depth 20

pub Keeps-load_slot : (i : ℕ) → Keeps (load_slot i)
unfolding load_slot
Keeps-load_slot i = record { at = λ vm. (Keeps-given _).at vm }

length-with_slot :
    (stack : List Value) (i : ℕ) (v : Value) → length (with_slot stack i v) ≡ length stack
unfolding with_slot
length-with_slot [] i v = refl
length-with_slot (x ∷ stack) i v = ground (arith, length-with_slot stack i v)

pub Keeps-store_slot : (i : ℕ) (v : Value) → Keeps (store_slot i v)
unfolding store_slot
Keeps-store_slot i v = record {
  at = λ vm. elim (Bool-cases (ltb i (length vm.stack))) [
    | inl room ↦ rw room (record {
      frames = λ h. h;
      stack = λ h. omega (arith, length-with_slot vm.stack i v, h);
      same_errors = refl;
      heap = Grown-same refl;
      sorted = λ h. h;
    })
    | inr off ↦ rw off tt
  ];
}

pub Keeps-load_upvalue : (o : Obj) → Keeps (load_upvalue o)
Keeps-load_upvalue (upvalue (slot i) closed next) = Keeps-load_slot i
Keeps-load_upvalue (upvalue own closed next) = search lookups
Keeps-load_upvalue (bound_method receiver method) = search lookups
Keeps-load_upvalue (class name methods) = search lookups
Keeps-load_upvalue (closure f upvalues) = search lookups
Keeps-load_upvalue (native k) = search lookups
Keeps-load_upvalue (function f) = search lookups
Keeps-load_upvalue (instance_of klass fields) = search lookups
Keeps-load_upvalue (string s) = search lookups

store_upvalue-Goes :
    (p : Ptr) (v : Value) (vm : Vm) (o : Obj)
    → get_elem? vm.memory.objects p ≡ some o
    → Goes vm (store_upvalue p v o vm)
store_upvalue-Goes p v vm (upvalue (slot i) closed next) e = (Keeps-store_slot i v).at vm
store_upvalue-Goes p v vm (upvalue own closed next) e = record {
  frames = λ h. h;
  stack = λ h. h;
  same_errors = refl;
  heap =
      Grown-same
        (map-set vm.memory.objects p (upvalue own v next) (KnownAs-read vm.memory.objects p e));
  sorted = IsOpen-own vm.memory.objects p v e;
}
store_upvalue-Goes p v vm (bound_method receiver method) e = tt
store_upvalue-Goes p v vm (class name methods) e = tt
store_upvalue-Goes p v vm (closure f upvalues) e = tt
store_upvalue-Goes p v vm (native k) e = tt
store_upvalue-Goes p v vm (function f) e = tt
store_upvalue-Goes p v vm (instance_of klass fields) e = tt
store_upvalue-Goes p v vm (string s) e = tt

pub Keeps-store_upvalue : (p : Ptr) (v : Value) → Keeps (object_at p >>= store_upvalue p v)
Keeps-store_upvalue p v = Keeps-reading p (store_upvalue p v) (store_upvalue-Goes p v)

pub Keeps-binary_op : (op : ℕ → ℕ → Value) → Keeps (binary_op op)
unfolding binary_op
Keeps-binary_op op = Keeps-bind (peek 0) _ (search lookups) (λ right.
    Keeps-option (as_number right) (runtime_error no_numbers) _ (search lookups) (λ b.
      Keeps-bind (peek 1) _ (search lookups) (λ left.
        Keeps-option (as_number left) (runtime_error no_numbers) _ (search lookups)
          (λ a. search lookups depth 20))))

Keeps-add_numbers : (machine : Machine) → Keeps (add_numbers machine)
unfolding add_numbers
Keeps-add_numbers machine = Keeps-bind (peek 0) _ (search lookups) (λ right.
    Keeps-option (as_number right) (runtime_error no_operands) _ (search lookups) (λ b.
      Keeps-bind (peek 1) _ (search lookups) (λ left.
        Keeps-option (as_number left) (runtime_error no_operands) _ (search lookups)
          (λ a. search lookups depth 20))))

pub Keeps-add : (machine : Machine) → Keeps (add machine)
unfolding add
Keeps-add machine = Keeps-bind (peek 0) _ (search lookups) (λ b.
    Keeps-bind get _ (search lookups) (λ vm.
      Keeps-option (string_in vm.memory b) _ _ (Keeps-add_numbers machine) (λ q.
        Keeps-bind (peek 1) _ (search lookups) (λ a.
          Keeps-option (string_in vm.memory a) _ _ (Keeps-add_numbers machine)
            (λ p. Keeps-concatenate p q)))))

pub ruleset operands = (
  lookups, Keeps-current_frame, Keeps-set_ip, Keeps-current_chunk, Keeps-read_byte,
  Keeps-read_offset, Keeps-read_constant, Keeps-read_object, Keeps-upvalue_in, Keeps-load_slot,
  Keeps-store_slot, Keeps-load_upvalue, Keeps-store_upvalue,
)
