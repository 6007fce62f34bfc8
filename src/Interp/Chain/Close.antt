-- ===== src/Interp/Chain/Close.antt =====
-- `closeUpvalues` of src/vm/interp/interp.cc closes the open upvalues at a slot and above.
use mathlib.Core.Path.{subst}
use yscript.Prelude.{
  ℕ, zero, suc, ◌≤◌, ◌<◌, ◌≡◌, ◌≢◌, inl, inr, refl, sym, ap, ◌∙◌, List, [], ◌∷◌, ◌++◌, Option, true,
  false, none, some, arith, ◌==◌, leb, length, length-set, get_elem?, get_elem?-set_self,
  get_elem?-set_ne, get_elem?-lt, Bool-cases,
}
use yscript.Value.{Ptr, Value, nil}
use yscript.Memory.{Obj, upvalue, slot, own}
use yscript.Interp.{Vm, returns}
use yscript.Interp.Upvalues.{as_open, at_slot, close_upvalue, close_loop, close_upvalues}
use yscript.Interp.Chain.{Opens, IsBelow, Chain, end, link, Chain-frame}
use yscript.Interp.Chain.Insert.{HasOpen}

at_slot-some :
    (stack : List Value) (i : ℕ)
    → i < length stack
    → (value : Value) × (at_slot stack i ≡ some value)
unfolding at_slot
at_slot-some [] i h = absurd (omega arith)
at_slot-some (v ∷ stack) i h = elim (Bool-cases (length stack == i)) [
  | inl top ↦ (v, rw (top))
  | inr below ↦ let (value, e) = at_slot-some stack i (ground arith) in (value, rw (below) e)
]

-- The slots of the list are on the stack.
abbrev pub IsWithin : ℕ → Opens → Type 0
IsWithin n [] = Unit
IsWithin n ((_, j) ∷ us) = (j < n) × IsWithin n us

-- The slots are `last` and above.
abbrev pub IsFrom : ℕ → Opens → Type 0
IsFrom last [] = Unit
IsFrom last ((_, j) ∷ us) = (last ≤ j) × IsFrom last us

-- Each upvalue of the list has the value of its slot as its own.
abbrev pub AreClosed : List Value → List Obj → Opens → Type 0
AreClosed stack objects [] = Unit
AreClosed stack objects ((u, j) ∷ us) =
    ((value : Value) × (next : Option Ptr) × (at_slot stack j ≡ some value)
      × (get_elem? objects u ≡ some (upvalue own value next)))
    × AreClosed stack objects us

pub record Closed (last : ℕ) (us : Opens) (vm vm' : Vm) : Type 0 where
  pub closed : Opens
  pub rest : Opens
  pub split : us ≡ closed ++ rest
  pub from : IsFrom last closed
  pub below : IsBelow last rest
  pub are_closed : AreClosed vm.stack vm'.memory.objects closed
  pub open_now : HasOpen vm' rest
  pub same_stack : vm'.stack ≡ vm.stack
  pub same_length : length vm'.memory.objects ≡ length vm.memory.objects
  pub others :
      (q : Ptr)
      → as_open (get_elem? vm.memory.objects q) ≡ none
      → get_elem? vm'.memory.objects q ≡ get_elem? vm.memory.objects q

module _ (vm : Vm) (u : Ptr) (i : ℕ) (v value : Value) (next : Option Ptr)
    (at_u : get_elem? vm.memory.objects u ≡ some (upvalue (slot i) v next)) where
  abbrev vm₁ : Vm
  vm₁ = close_upvalue u value next vm

  closed_self : get_elem? vm₁.memory.objects u ≡ some (upvalue own value next)
  unfolding close_upvalue
  closed_self =
      get_elem?-set_self vm.memory.objects u (upvalue own value next)
        (get_elem?-lt vm.memory.objects u at_u)

  closed_other : (q : Ptr) → u ≢ q → get_elem? vm₁.memory.objects q ≡ get_elem? vm.memory.objects q
  unfolding close_upvalue
  closed_other q apart = get_elem?-set_ne vm.memory.objects (upvalue own value next) apart

  not_closed : (q : Ptr) → as_open (get_elem? vm.memory.objects q) ≡ none → u ≢ q
  not_closed q e same =
      let h : as_open (some (upvalue (slot i) v next)) ≡ none =
        ap as_open (sym at_u ∙ ap (get_elem? vm.memory.objects) same) ∙ e in
      absurd (cc h)

  pub closed-Chain :
      (us : Opens)
      → Chain vm.memory.objects next us
      → IsBelow i us
      → Chain vm₁.memory.objects next us
  closed-Chain us c below =
      Chain-frame vm.memory.objects vm₁.memory.objects i
        (λ q j w n e lt. closed_other q (λ same.
          let both : some (upvalue (slot i) v next) ≡ some (upvalue (slot j) w n) =
            sym at_u ∙ ap (get_elem? vm.memory.objects) same ∙ e in
          let slots : i ≡ j = cc both in absurd (omega arith)))
        c below

  close_step :
      (f last : ℕ)
      → vm.open_upvalues ≡ some u
      → at_slot vm.stack i ≡ some value
      → leb last i ≡ true
      → close_loop (suc f) last vm ≡ close_loop f last vm₁
  unfolding close_loop
  close_step f last first at_i from = rw (close_loop, first, at_u, at_i, from)

  close_stop :
      (f last : ℕ)
      → vm.open_upvalues ≡ some u
      → leb last i ≡ false
      → close_loop (suc f) last vm ≡ returns tt vm
  unfolding close_loop
  close_stop f last first below = simp (close_loop, first, at_u, below)

close_end :
    (f last : ℕ) (vm : Vm) → vm.open_upvalues ≡ none → close_loop (suc f) last vm ≡ returns tt vm
unfolding close_loop
close_end f last vm e = simp (close_loop, e)

nothing-Closed :
    (last : ℕ) (us : Opens) (vm : Vm) → HasOpen vm us → IsBelow last us → Closed last us vm vm
nothing-Closed last us vm c below = record {
  closed = [];
  rest = us;
  split = refl;
  from = tt;
  below = below;
  are_closed = tt;
  open_now = c;
  same_stack = refl;
  same_length = refl;
  others = λ q e. refl;
}

-- One more upvalue is closed before the others.
module _ (vm : Vm) (u : Ptr) (i : ℕ) (v value : Value) (next : Option Ptr)
    (at_u : get_elem? vm.memory.objects u ≡ some (upvalue (slot i) v next)) where
  Closed-first :
      (last : ℕ) (us : Opens) (vm' : Vm)
      → at_slot vm.stack i ≡ some value
      → last ≤ i
      → Closed last us (close_upvalue u value next vm) vm'
      → Closed last ((u, i) ∷ us) vm vm'
  unfolding close_upvalue
  Closed-first last us vm' at_i from c = record {
    closed = (u, i) ∷ c.closed;
    rest = c.rest;
    split = ap (λ l. (u, i) ∷ l) c.split;
    from = (from, c.from);
    below = c.below;
    are_closed = (
      (
        value,
        next,
        at_i,
        c.others u (ap as_open (closed_self vm u i v value next at_u))
            ∙ closed_self vm u i v value next at_u,
      ),
      c.are_closed,
    );
    open_now = c.open_now;
    same_stack = c.same_stack;
    same_length = c.same_length ∙ length-set vm.memory.objects u (upvalue own value next);
    others = λ q e.
        let same =
          closed_other vm u i v value next at_u q (not_closed vm u i v value next at_u q e) in
        c.others q (ap as_open same ∙ e) ∙ same;
  }

close_loop-Closed :
    (f last : ℕ) (us : Opens) (vm : Vm) {head : Option Ptr}
    → vm.open_upvalues ≡ head
    → Chain vm.memory.objects head us
    → IsWithin (length vm.stack) us
    → length us ≤ length vm.memory.objects
    → length us < f
    → (vm' : Vm) × (close_loop f last vm ≡ returns tt vm') × Closed last us vm vm'
unfolding close_upvalue
close_loop-Closed zero last us vm first c within few h = absurd (omega arith)
close_loop-Closed (suc f) last [] vm first end within few h = (
  vm,
  close_end f last vm first,
  nothing-Closed last [] vm
      (record { chain = subst (λ o. Chain vm.memory.objects o []) (sym first) end; few = few }) tt,
)
close_loop-Closed (suc f) last ((u, i) ∷ us) vm first (link {closed = v} {next = n} e b c) (w, ws)
      few h =
    elim (Bool-cases (leb last i)) [
      | inl from ↦
          let (value, at_i) = at_slot-some vm.stack i w in
          let (vm', run, closed) =
            close_loop-Closed f last us (close_upvalue u value n vm) refl
              (closed-Chain vm u i v value n e us c b) ws
              (omega (arith, length-set vm.memory.objects u (upvalue own value n))) (omega arith) in
          (
            vm',
            close_step vm u i v value n e f last first at_i from ∙ run,
            Closed-first vm u i v value n e last us vm' at_i (ground arith) closed,
          )
      | inr below ↦ (
        vm,
        close_stop vm u i v nil n e f last first below,
        nothing-Closed last ((u, i) ∷ us) vm
            (record {
              chain = subst (λ o. Chain vm.memory.objects o ((u, i) ∷ us)) (sym first) (link e b c);
              few = few;
            })
            (ground arith),
      )
    ]

-- With the open upvalues in a list `us` sorted by their slots, which are on the stack, closing them
-- from the slot `last` on ends: those of `us` at `last` and above each keep the value of their slot as their own,
-- the others stay open in their order, and every object that is no open upvalue and the stack are the same.
pub close_upvalues-Closed :
    (last : ℕ) (us : Opens) (vm : Vm)
    → HasOpen vm us
    → IsWithin (length vm.stack) us
    → (vm' : Vm) × (close_upvalues last vm ≡ returns tt vm') × Closed last us vm vm'
unfolding close_upvalues
close_upvalues-Closed last us vm h within =
    close_loop-Closed (suc (length vm.memory.objects)) last us vm refl h.chain within h.few
      (omega (arith, h.few))
