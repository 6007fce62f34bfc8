-- ===== src/Interp/Chain/Insert.antt =====
-- The insertion of a new upvalue into the list (`captureUpvalue` of src/vm/interp/interp.cc).
use yscript.Prelude.{
  ℕ, suc, ◌≤◌, ◌<◌, ◌≡◌, ◌≢◌, refl, sym, ap, ◌∙◌, List, [], ◌∷◌, ◌++◌, Option, none, some, arith,
  length, length-append, length-set, get_elem?, get_elem?-set_self, get_elem?-set_ne, get_elem?-lt,
  get_elem?-append_left, get_elem?-append_end,
}
use yscript.Value.{Ptr, nil}
use yscript.Memory.{Obj, upvalue, slot, new_upvalue, allocate_object}
use yscript.Interp.{Vm}
use yscript.Interp.Upvalues.{with_next, set_next, insert_upvalue}
use yscript.Interp.Chain.{
  Opens, IsBelow, IsAbove, Chain, link, Chain-frame, last_of, last_at, Chain-insert, first_of,
}

set_next_self :
    (objects : List Obj) (p : Ptr) (next : Option Ptr) {o : Obj}
    → get_elem? objects p ≡ some o
    → get_elem? (set_next objects p next) p ≡ some (with_next next o)
set_next_self objects p next {o = o} e =
    rw (set_next, e) (get_elem?-set_self objects p (with_next next o) (get_elem?-lt objects p e))

set_next_other :
    (objects : List Obj) (p q : Ptr) (next : Option Ptr) {o : Obj}
    → get_elem? objects p ≡ some o
    → p ≢ q
    → get_elem? (set_next objects p next) q ≡ get_elem? objects q
set_next_other objects p q next {o = o} e apart =
    rw (set_next, e) (get_elem?-set_ne objects (with_next next o) apart)

length-set_next :
    (objects : List Obj) (p : Ptr) (next : Option Ptr) {o : Obj}
    → get_elem? objects p ≡ some o
    → length (set_next objects p next) ≡ length objects
length-set_next objects p next {o = o} e =
    rw (set_next, e) (length-set objects p (with_next next o))

-- The objects with the new upvalue.
abbrev opened : List Obj → ℕ → Option Ptr → List Obj
opened objects local next =
    set_next (objects ++ upvalue (slot local) nil none ∷ []) (length objects) next

module _ (objects : List Obj) (local : ℕ) (next : Option Ptr) where
  opened_self :
      get_elem? (opened objects local next) (length objects) ≡ some (upvalue (slot local) nil next)
  opened_self =
      set_next_self (objects ++ upvalue (slot local) nil none ∷ []) (length objects) next
        (get_elem?-append_end objects (upvalue (slot local) nil none))

  opened_other :
      (q : Ptr) → q < length objects → get_elem? (opened objects local next) q ≡ get_elem? objects q
  opened_other q lt =
      set_next_other (objects ++ upvalue (slot local) nil none ∷ []) (length objects) q next
        (get_elem?-append_end objects (upvalue (slot local) nil none)) (λ same. omega arith)
      ∙ get_elem?-append_left objects (upvalue (slot local) nil none) q lt

  length-opened : length (opened objects local next) ≡ suc (length objects)
  length-opened =
      length-set_next (objects ++ upvalue (slot local) nil none ∷ []) (length objects) next
        (get_elem?-append_end objects (upvalue (slot local) nil none))
      ∙ omega (arith, length-append objects (upvalue (slot local) nil none ∷ []))

-- The list of `vm` is `us`: sorted, and not longer than the objects.
pub record HasOpen (vm : Vm) (us : Opens) : Type 0 where
  pub chain : Chain vm.memory.objects vm.open_upvalues us
  pub few : length us ≤ length vm.memory.objects

length-insert :
    (passed rest : Opens) (x : Ptr × ℕ)
    → length (passed ++ x ∷ rest) ≡ suc (length (passed ++ rest))
length-insert [] rest x = refl
length-insert (y ∷ passed) rest x = ap suc (length-insert passed rest x)

-- What the insertion leaves.
pub record Inserted (local : ℕ) (passed rest : Opens) (vm : Vm) (vm' : Vm) : Type 0 where
  pub open_now : HasOpen vm' (passed ++ (length vm.memory.objects, local) ∷ rest)
  pub same_stack : vm'.stack ≡ vm.stack

pub insert_upvalue-first :
    (vm : Vm) (local : ℕ) (rest : Opens)
    → Chain vm.memory.objects (first_of rest) rest
    → length rest ≤ length vm.memory.objects
    → IsBelow local rest
    → (vm' : Vm) × (insert_upvalue local none (first_of rest) vm ≡ (length vm.memory.objects, vm'))
      × Inserted local [] rest vm vm'
unfolding insert_upvalue new_upvalue allocate_object
insert_upvalue-first vm local rest c few below =
    let objects = vm.memory.objects in
    let objects' = opened objects local (first_of rest) in
    (
      record vm {
        memory = record (vm.memory) { objects = objects' };
        open_upvalues = some (length objects);
      },
      refl,
      record {
        open_now = record {
          chain = link (opened_self objects local (first_of rest)) below (
              Chain-frame objects objects' local
                (λ q j v n e lt.
                  opened_other objects local (first_of rest) q (get_elem?-lt objects q e))
                c below);
          few = omega (arith, length-opened objects local (first_of rest));
        };
        same_stack = refl;
      },
    )

module _ (vm : Vm) (local : ℕ) (p : Ptr) (i : ℕ) (passed rest : Opens)
    (c : Chain vm.memory.objects vm.open_upvalues ((p, i) ∷ (passed ++ rest)))
    (cr : Chain vm.memory.objects (first_of rest) rest) (above : IsAbove local ((p, i) ∷ passed))
    (below : IsBelow local rest) where
  abbrev before : List Obj
  before = vm.memory.objects

  abbrev with_new : List Obj
  with_new = opened before local (first_of rest)

  abbrev relinked : List Obj
  relinked = set_next with_new (last_of p passed) (some (length before))

  insert_upvalue-Chain :
      Chain relinked vm.open_upvalues ((p, i) ∷ (passed ++ (length before, local) ∷ rest))
  insert_upvalue-Chain =
      let (k, w, m, e, le, lt) = last_at before p i local passed rest c above in
      let last_lt : last_of p passed < length before = get_elem?-lt before (last_of p passed) e in
      let e' : get_elem? with_new (last_of p passed) ≡ some (upvalue (slot k) w m) =
        opened_other before local (first_of rest) (last_of p passed) last_lt ∙ e in
      let kept : (q : Ptr)
          → q < length before
          → q ≢ last_of p passed
          → get_elem? relinked q ≡ get_elem? before q =
        λ q q_lt apart.
          set_next_other with_new (last_of p passed) q (some (length before)) e'
            (λ same. apart (sym same))
          ∙ opened_other before local (first_of rest) q q_lt in
      Chain-insert before relinked local (length before) rest
        (link
          (set_next_other with_new (last_of p passed) (length before) (some (length before)) e'
              (λ same. omega arith)
            ∙ opened_self before local (first_of rest))
          below
          (Chain-frame before relinked local
            (λ q j v n at_q j_lt. kept q (get_elem?-lt before q at_q) (λ same.
              let both : some (upvalue (slot j) v n) ≡ some (upvalue (slot k) w m) =
                sym at_q ∙ ap (get_elem? before) same ∙ e in
              let slots : j ≡ k = cc both in omega arith))
            cr below))
        p i passed c above (λ q j v n at_q apart. kept q (get_elem?-lt before q at_q) apart)
        (λ j v n at_last.
          set_next_self with_new (last_of p passed) (some (length before))
            (opened_other before local (first_of rest) (last_of p passed) last_lt ∙ at_last))

  length-relinked : length relinked ≡ suc (length before)
  length-relinked =
      let (k, w, m, e, le, lt) = last_at before p i local passed rest c above in
      length-set_next with_new (last_of p passed) (some (length before)) (
        opened_other before local (first_of rest) (last_of p passed)
          (get_elem?-lt before (last_of p passed) e)
        ∙ e)
      ∙ length-opened before local (first_of rest)

  pub insert_upvalue-behind :
      suc (length (passed ++ rest)) ≤ length before
      → (vm' : Vm) × (insert_upvalue local (some (last_of p passed)) (first_of rest) vm
          ≡ (length before, vm'))
        × Inserted local ((p, i) ∷ passed) rest vm vm'
  unfolding insert_upvalue new_upvalue allocate_object
  insert_upvalue-behind few = (
    record vm { memory = record (vm.memory) { objects = relinked } },
    refl,
    record {
      open_now = record {
        chain = insert_upvalue-Chain;
        few = omega (arith, length-relinked, length-insert passed rest (length before, local));
      };
      same_stack = refl;
    },
  )
