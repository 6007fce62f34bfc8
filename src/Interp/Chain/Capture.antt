-- ===== src/Interp/Chain/Capture.antt =====
-- `captureUpvalue` of src/vm/interp/interp.cc keeps the open upvalues sorted, one for a slot.
use yscript.Prelude.{
  ℕ, suc, ◌≤◌, ◌≡◌, inl, inr, refl, sym, ap, List, [], ◌∷◌, ◌++◌, Option, true, false, none, some,
  arith, ◌==◌, leb, length, get_elem?, Bool-cases,
}
use mathlib.Core.Path.{subst}
use yscript.Value.{Ptr, Value}
use yscript.Memory.{Obj, upvalue, slot}
use yscript.Interp.{Vm, returns}
use yscript.Interp.Upvalues.{
  capture_loop, slot_of, is_at, insert_upvalue, inserted, capture_upvalue,
}
use yscript.Interp.Chain.{
  Opens, IsBelow, IsAbove, Chain, end, link, prev_of, first_of, capture_loop-Stop,
}
use yscript.Interp.Chain.Insert.{HasOpen, Inserted, insert_upvalue-first, insert_upvalue-behind}

-- How `captureUpvalue` finds or makes the upvalue `u` of a slot.
pub data Captured (local : ℕ) (us : Opens) (vm : Vm) : Ptr → Vm → Type 0 where
  known :
      (u : Ptr) (passed rest : Opens) → us ≡ passed ++ (u, local) ∷ rest → Captured local us vm u vm
  fresh :
      (vm' : Vm) (passed rest : Opens)
      → us ≡ passed ++ rest
      → IsAbove local passed
      → IsBelow local rest
      → Inserted local passed rest vm vm'
      → Captured local us vm (length vm.memory.objects) vm'

-- The object of the first entry of a list.
abbrev FirstAt : List Obj → Opens → Type 0
FirstAt objects [] = Unit
FirstAt objects ((q, j) ∷ us) =
    (closed : Value) × (next : Option Ptr) × (get_elem? objects q
      ≡ some (upvalue (slot j) closed next))

Chain-first :
    {objects : List Obj} {head : Option Ptr} {us : Opens}
    → Chain objects head us
    → FirstAt objects us
Chain-first end = tt
Chain-first (link {closed = v} {next = n} e b c) = (v, n, e)

module _ (vm : Vm) (local : ℕ) where
  abbrev looked_up : Option (Option Ptr × Option Ptr)
  looked_up =
      capture_loop (suc (length vm.memory.objects)) vm.memory.objects local none vm.open_upvalues

  capture_known :
      {prev : Option Ptr} {u : Ptr}
      → looked_up ≡ some (prev, some u)
      → slot_of vm.memory.objects (some u) ≡ some local
      → capture_upvalue local vm ≡ returns u vm
  unfolding capture_upvalue
  capture_known found at =
      let here : (local == local) ≡ true = ground arith in rw (capture_upvalue, found, at, here)

  capture_fresh :
      {prev : Option Ptr} (next : Option Ptr) {u : Ptr} {vm' : Vm}
      → looked_up ≡ some (prev, next)
      → is_at (slot_of vm.memory.objects next) local ≡ false
      → insert_upvalue local prev next vm ≡ (u, vm')
      → capture_upvalue local vm ≡ returns u vm'
  unfolding capture_upvalue
  capture_fresh none found away made = rw (capture_upvalue, found) (ap inserted made)
  capture_fresh (some q) found away made = rw (capture_upvalue, found, away) (ap inserted made)

  is_at-above :
      (rest : Opens)
      → Chain vm.memory.objects (first_of rest) rest
      → IsBelow local rest
      → is_at (slot_of vm.memory.objects (first_of rest)) local ≡ false
  is_at-above [] c below = refl
  is_at-above ((q, j) ∷ rest) c below =
      let (_, _, e) = Chain-first c in rw (e, slot_of) (ground arith)

  abbrev Answer : Opens → Type 0
  Answer us =
      (u : Ptr) × (vm' : Vm) × (capture_upvalue local vm ≡ returns u vm')
      × Captured local us vm u vm'

  capture_new :
      (passed rest : Opens)
      → Chain vm.memory.objects vm.open_upvalues (passed ++ rest)
      → length (passed ++ rest) ≤ length vm.memory.objects
      → Chain vm.memory.objects (first_of rest) rest
      → IsAbove local passed
      → IsBelow local rest
      → looked_up ≡ some (prev_of none passed, first_of rest)
      → Answer (passed ++ rest)
  capture_new [] rest c few cr above below found =
      let (vm', made, after) = insert_upvalue-first vm local rest cr few below in
      (
        length vm.memory.objects,
        vm',
        capture_fresh (first_of rest) found (is_at-above rest cr below) made,
        fresh vm' [] rest refl above below after,
      )
  capture_new ((p, i) ∷ passed) rest c few cr above below found =
      let (vm', made, after) =
        insert_upvalue-behind vm local p i passed rest c cr above below few in
      (
        length vm.memory.objects,
        vm',
        capture_fresh (first_of rest) found (is_at-above rest cr below) made,
        fresh vm' ((p, i) ∷ passed) rest refl above below after,
      )

  capture_at :
      (passed rest : Opens)
      → Chain vm.memory.objects vm.open_upvalues (passed ++ rest)
      → length (passed ++ rest) ≤ length vm.memory.objects
      → Chain vm.memory.objects (first_of rest) rest
      → IsAbove local passed
      → IsBelow (suc local) rest
      → looked_up ≡ some (prev_of none passed, first_of rest)
      → Answer (passed ++ rest)
  capture_at passed [] c few cr above below found = capture_new passed [] c few cr above tt found
  capture_at passed ((q, j) ∷ rest) c few cr above below found =
      let (_, _, e) = Chain-first cr in
      elim (Bool-cases (leb local j)) [
        | inl same ↦
            let here : j ≡ local = ground arith in
            (
              q,
              vm,
              capture_known found (rw (e, slot_of) (ap some here)),
              known q passed rest (ap (λ k. passed ++ (q, k) ∷ rest) here),
            )
        | inr less ↦ capture_new passed ((q, j) ∷ rest) c few cr above (ground arith) found
      ]

-- With the open upvalues in a list sorted by their slots, capturing a slot returns: either the upvalue
-- of the list that has this slot, with nothing changed, or a new one at the place of the slot in
-- the list, which stays sorted; the values on the stack are the same.
pub capture_upvalue-Captured :
    (vm : Vm) (us : Opens) (local : ℕ)
    → HasOpen vm us
    → (u : Ptr) × (vm' : Vm) × (capture_upvalue local vm ≡ returns u vm')
      × Captured local us vm u vm'
capture_upvalue-Captured vm us local h =
    let (p, found) =
      capture_loop-Stop (suc (length vm.memory.objects)) vm.memory.objects local none h.chain
        (omega (arith, h.few)) in
    subst (Answer vm local) (sym p.split) (
      capture_at vm local p.passed p.rest
        (subst (Chain vm.memory.objects vm.open_upvalues) p.split h.chain)
        (subst (λ l. length l ≤ length vm.memory.objects) p.split h.few) p.chain p.above p.below
        found)
