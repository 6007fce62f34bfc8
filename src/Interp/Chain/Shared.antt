-- ===== src/Interp/Chain/Shared.antt =====
-- Closures share the variables that they capture (`captureUpvalue` of src/vm/interp/interp.cc).
use mathlib.Core.Path.{subst}
use yscript.Prelude.{
  ℕ, ◌<◌, ◌≡◌, refl, ap, ◌∙◌, List, [], ◌∷◌, ◌++◌, true, false, Option, none, some, arith, ◌==◌,
  if◌then◌else◌,
}
use yscript.Value.{Ptr}
use yscript.Memory.{Obj}
use yscript.Interp.{Vm, returns}
use yscript.Interp.Upvalues.{capture_upvalue}
use yscript.Interp.Chain.{Opens, IsBelow, IsAbove, Chain, link}
use yscript.Interp.Chain.Insert.{HasOpen}
use yscript.Interp.Chain.Capture.{Captured, known, fresh, capture_upvalue-Captured}

-- The upvalue of the list that has the slot.
abbrev opened_at : Opens → ℕ → Option Ptr
opened_at [] local = none
opened_at ((u, j) ∷ us) local = if j == local then some u else opened_at us local

Chain-below :
    {objects : List Obj} {head : Option Ptr} (p : Ptr) (j : ℕ) (passed : Opens) (u : Ptr)
    (local : ℕ) (rest : Opens)
    → Chain objects head ((p, j) ∷ (passed ++ (u, local) ∷ rest))
    → local < j
Chain-below p j [] u local rest (link e b c) = b
Chain-below p j ((q, k) ∷ passed) u local rest (link e b c) =
    let further = Chain-below q k passed u local rest c in omega arith

opened_at-split :
    {objects : List Obj} {head : Option Ptr} (passed : Opens) (u : Ptr) (local : ℕ) (rest : Opens)
    → Chain objects head (passed ++ (u, local) ∷ rest)
    → opened_at (passed ++ (u, local) ∷ rest) local ≡ some u
opened_at-split [] u local rest c = let here : (local == local) ≡ true = ground arith in rw here
opened_at-split ((p, j) ∷ passed) u local rest (link e b c) =
    let above = Chain-below p j passed u local rest (link e b c) in
    let away : (j == local) ≡ false = ground arith in
    rw away (opened_at-split passed u local rest c)

opened_at-below :
    {objects : List Obj} {head : Option Ptr} (rest : Opens) (local : ℕ)
    → Chain objects head rest
    → IsBelow local rest
    → opened_at rest local ≡ none
opened_at-below [] local c below = refl
opened_at-below ((p, j) ∷ rest) local (link e b c) below =
    let away : (j == local) ≡ false = ground arith in
    rw away (opened_at-below rest local c (lower rest b))
  where
    lower : (us : Opens) → IsBelow j us → IsBelow local us
    lower [] h = tt
    lower ((q, k) ∷ us) h = omega arith

opened_at-missing :
    {objects : List Obj} {head : Option Ptr} (passed rest : Opens) (local : ℕ)
    → Chain objects head (passed ++ rest)
    → IsAbove local passed
    → IsBelow local rest
    → opened_at (passed ++ rest) local ≡ none
opened_at-missing [] rest local c above below = opened_at-below rest local c below
opened_at-missing ((p, j) ∷ passed) rest local (link e b c) (h, above) below =
    let away : (j == local) ≡ false = ground arith in
    rw away (opened_at-missing passed rest local c above below)

-- What a capture leaves has the upvalue at the slot.
opened_after :
    {local : ℕ} {us : Opens} {vm vm' : Vm} {u : Ptr}
    → HasOpen vm us
    → Captured local us vm u vm'
    → (us' : Opens) × HasOpen vm' us' × (opened_at us' local ≡ some u)
opened_after {local = local} {us = us} {vm = vm} h (known u passed rest split) = (
  us,
  h,
  rw split (
      opened_at-split passed u local rest
        (subst (Chain vm.memory.objects vm.open_upvalues) split h.chain)),
)
opened_after {local = local} h (fresh vm' passed rest split above below i) =
    (_, i.open_now, opened_at-split passed _ local rest i.open_now.chain)

again :
    {local : ℕ} {us : Opens} {vm vm' : Vm} {u w : Ptr}
    → HasOpen vm us
    → opened_at us local ≡ some u
    → Captured local us vm w vm'
    → (w ≡ u) × (vm' ≡ vm)
again {local = local} {vm = vm} h at (known w passed rest split) =
    let c = subst (Chain vm.memory.objects vm.open_upvalues) split h.chain in
    let here = ap (λ us. opened_at us local) split ∙ opened_at-split passed w local rest c in
    (cc (here, at), refl)
again {local = local} {vm = vm} h at (fresh vm' passed rest split above below i) =
    let c = subst (Chain vm.memory.objects vm.open_upvalues) split h.chain in
    let gone =
      ap (λ us. opened_at us local) split ∙ opened_at-missing passed rest local c above below in
    absurd (cc (gone, at))

-- With the open upvalues in a sorted list, two captures of one slot, one after the other, return the same upvalue, and
-- the second changes nothing.
pub capture_upvalue-again :
    (vm : Vm) (us : Opens) (local : ℕ)
    → HasOpen vm us
    → (u : Ptr) × (vm' : Vm) × (capture_upvalue local vm ≡ returns u vm')
      × (capture_upvalue local vm' ≡ returns u vm')
capture_upvalue-again vm us local h =
    let (u, vm', run, captured) = capture_upvalue-Captured vm us local h in
    let (us', h', at) = opened_after h captured in
    let (w, vm'', run', captured') = capture_upvalue-Captured vm' us' local h' in
    let (same, unchanged) = again h' at captured' in (u, vm', run, run' ∙ rw (same, unchanged))
