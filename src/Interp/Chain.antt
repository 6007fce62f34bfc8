-- ===== src/Interp/Chain.antt =====
-- The list of the open upvalues of src/vm/interp/interp.cc: sorted by their slots, the highest first.
pub mod Capture
pub mod Close
pub mod Shared
pub mod Insert
use yscript.Prelude.{
  ℕ, zero, suc, ◌+◌, ◌≤◌, ◌<◌, ◌≡◌, ◌≢◌, ◌⊎◌, inl, inr, refl, sym, ap, ◌∙◌, List, [], ◌∷◌, ◌++◌,
  Bool, true, false, Option, none, some, arith, ◌==◌, ltb, leb, if◌then◌else◌, length,
  length-append, get_elem?, set, get_elem?-set_self, get_elem?-set_ne, get_elem?-lt,
  get_elem?-append_left, get_elem?-append_end, Bool-cases,
}
use yscript.Value.{Ptr, Value, nil}
use yscript.Memory.{Obj, upvalue, slot, own}
use yscript.Interp.Upvalues.{as_open, capture_loop, with_next, set_next}

-- The addresses and the slots of the upvalues on the list.
abbrev pub Opens : Type 0
Opens = List (Ptr × ℕ)

-- The first slot of the list, if any, is below `i`.
abbrev pub IsBelow : ℕ → Opens → Type 0
IsBelow i [] = Unit
IsBelow i ((_, j) ∷ us) = j < i

pub data Chain (objects : List Obj) : Option Ptr → Opens → Type 0 where
  end : Chain objects none []
  link :
      {u : Ptr} {i : ℕ} {closed : Value} {next : Option Ptr} {us : Opens}
      → get_elem? objects u ≡ some (upvalue (slot i) closed next)
      → IsBelow i us
      → Chain objects next us
      → Chain objects (some u) ((u, i) ∷ us)

-- Entries with lower slots than `i` are kept.
Chain-frame :
    (objects objects' : List Obj) {head : Option Ptr} {us : Opens} (i : ℕ)
    → ((q : Ptr) (j : ℕ) (closed : Value) (next : Option Ptr)
        → get_elem? objects q ≡ some (upvalue (slot j) closed next)
        → j < i
        → get_elem? objects' q ≡ get_elem? objects q)
    → Chain objects head us
    → IsBelow i us
    → Chain objects' head us
Chain-frame objects objects' i agree end b = end
Chain-frame objects objects' i agree (link {u = u} {i = j} {closed = v} {next = n} e below c) b =
    link (agree u j v n e b ∙ e) below
      (Chain-frame objects objects' j (λ q k w m h lt. agree q k w m h (omega arith)) c below)

abbrev pub last_of : Ptr → Opens → Ptr
last_of p [] = p
last_of p ((q, j) ∷ us) = last_of q us

-- All slots are above `local`.
abbrev pub IsAbove : ℕ → Opens → Type 0
IsAbove local [] = Unit
IsAbove local ((_, j) ∷ us) = (local < j) × IsAbove local us

last_at :
    (objects : List Obj) (p : Ptr) (i local : ℕ) (passed rest : Opens) {head : Option Ptr}
    → Chain objects head ((p, i) ∷ (passed ++ rest))
    → IsAbove local ((p, i) ∷ passed)
    → (j : ℕ) × (closed : Value) × (next : Option Ptr) × (get_elem? objects (last_of p passed)
        ≡ some (upvalue (slot j) closed next))
      × (j ≤ i)
      × (local < j)
last_at objects p i local [] rest (link {closed = v} {next = n} e b c) (h, _) =
    (i, v, n, e, omega arith, h)
last_at objects p i local ((q, j) ∷ passed) rest (link e b c) (h, hs) =
    let (k, v, n, e', le, lt) = last_at objects q j local passed rest c hs in
    (k, v, n, e', omega arith, lt)

-- The new upvalue behind those that are above it, when its entry and that of the last of them are
-- written, and no other.
module _ (objects objects' : List Obj) (local : ℕ) (created : Ptr) (rest : Opens)
    (based : Chain objects' (some created) ((created, local) ∷ rest)) where
  Chain-insert :
      (p : Ptr) (i : ℕ) (passed : Opens) {head : Option Ptr}
      → Chain objects head ((p, i) ∷ (passed ++ rest))
      → IsAbove local ((p, i) ∷ passed)
      → ((q : Ptr) (j : ℕ) (closed : Value) (next : Option Ptr)
          → get_elem? objects q ≡ some (upvalue (slot j) closed next)
          → q ≢ last_of p passed
          → get_elem? objects' q ≡ get_elem? objects q)
      → ((j : ℕ) (closed : Value) (next : Option Ptr)
          → get_elem? objects (last_of p passed) ≡ some (upvalue (slot j) closed next)
          → get_elem? objects' (last_of p passed) ≡ some (upvalue (slot j) closed (some created)))
      → Chain objects' head ((p, i) ∷ (passed ++ (created, local) ∷ rest))
  Chain-insert p i [] (link {closed = v} {next = n} e b c) (h, _) agree relinked =
      link (relinked i v n e) h based
  Chain-insert p i ((q, j) ∷ passed) (link {closed = v} {next = n} e b c) (h, hs) agree relinked =
      let (k, w, m, e', le, lt) = last_at objects q j local passed rest c hs in
      let apart : p ≢ last_of q passed = λ same.
        let both : some (upvalue (slot i) v n) ≡ some (upvalue (slot k) w m) =
          sym e ∙ ap (get_elem? objects) same ∙ e' in
        let slots : i ≡ k = cc both in omega arith in
      link (agree p i v n e apart ∙ e) b (Chain-insert q j passed c hs agree relinked)

-- Where the loop of `captureUpvalue` stops.
abbrev pub prev_of : Option Ptr → Opens → Option Ptr
prev_of prev [] = prev
prev_of prev ((p, i) ∷ us) = some (last_of p us)

abbrev pub first_of : Opens → Option Ptr
first_of [] = none
first_of ((p, i) ∷ us) = some p

pub record Stop (objects : List Obj) (local : ℕ) (us : Opens) : Type 0 where
  pub passed : Opens
  pub rest : Opens
  pub split : us ≡ passed ++ rest
  pub chain : Chain objects (first_of rest) rest
  pub above : IsAbove local passed
  pub below : IsBelow (suc local) rest

prev_of-some : (u : Ptr) (passed : Opens) → prev_of (some u) passed ≡ some (last_of u passed)
prev_of-some u [] = refl
prev_of-some u ((p, i) ∷ us) = refl

capture_step :
    (f : ℕ) (objects : List Obj) (local : ℕ) (prev : Option Ptr) (u : Ptr) (i : ℕ) (closed : Value)
    (next : Option Ptr)
    → get_elem? objects u ≡ some (upvalue (slot i) closed next)
    → ltb local i ≡ true
    → capture_loop (suc f) objects local prev (some u) ≡ capture_loop f objects local (some u) next
unfolding capture_loop
capture_step f objects local prev u i closed next e go = rw (capture_loop, e, go)

capture_loop-Stop :
    (f : ℕ) (objects : List Obj) (local : ℕ) (prev : Option Ptr) {head : Option Ptr} {us : Opens}
    → Chain objects head us
    → length us < f
    → (p : Stop objects local us) × (capture_loop f objects local prev head
        ≡ some (prev_of prev p.passed, first_of p.rest))
unfolding capture_loop
capture_loop-Stop zero objects local prev c h = absurd (omega arith)
capture_loop-Stop (suc f) objects local prev end h =
    (record { passed = []; rest = []; split = refl; chain = end; above = tt; below = tt }, refl)
capture_loop-Stop (suc f) objects local prev
      (link {u = u} {i = i} {closed = v} {next = n} {us = us} e b c) h =
    elim (Bool-cases (ltb local i)) [
      | inr stop ↦ (
        record {
          passed = [];
          rest = (u, i) ∷ us;
          split = refl;
          chain = link e b c;
          above = tt;
          below = ground arith;
        },
        rw (capture_loop, e, stop),
      )
      | inl go ↦
          let (p, run) = capture_loop-Stop f objects local (some u) c (omega arith) in
          (
            record {
              passed = (u, i) ∷ p.passed;
              rest = p.rest;
              split = ap (λ l. (u, i) ∷ l) p.split;
              chain = p.chain;
              above = (ground arith, p.above);
              below = p.below;
            },
            capture_step f objects local prev u i v n e go
                ∙ run
                ∙ ap (λ o. some (o, first_of p.rest)) (prev_of-some u p.passed),
          )
    ]
