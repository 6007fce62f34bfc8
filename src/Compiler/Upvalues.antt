-- ===== src/Compiler/Upvalues.antt =====
-- The upvalues of a function (`addUpvalue` of src/compiler/parser.cc).
use yscript.Prelude.{
  get_elem?-lt, get_elem?-append_left, get_elem?-append_end, ℕ, zero, suc, ◌+◌, ◌≤◌, ◌≡◌, ◌≢◌, ◌⊎◌,
  inl, inr, refl, sym, ap, ◌∙◌, List, [], ◌∷◌, ◌++◌, Bool, true, false, ◌&&◌, Option, none, some,
  arith, ◌==◌, if_elim, length, length-append, get_elem?, set, get_elem?-set_self, Bool-cases,
}
use yscript.Prelude.Bytes.{Bytes, codes}
use yscript.Value.{bool_eq}
use yscript.Memory.{function, ObjFunction}
use yscript.Compiler.{Upvalue, Compiler, State, ◌>>=◌}
use yscript.Compiler.Emit.{error, error_at}
use yscript.Compiler.Scope.{find_upvalue, count_upvalue, add_upvalue, uint8_count}

-- An upvalue of this index and kind.
abbrev pub up : ℕ → Bool → Upvalue
up index is_local = record { index = index; is_local = is_local }

abbrev is_up : Upvalue → ℕ → Bool → Bool
is_up u index is_local = (u.index == index) && bool_eq u.is_local is_local

bool_eq→eq : (a b : Bool) → bool_eq a b ≡ true → a ≡ b
bool_eq→eq true true h = refl
bool_eq→eq true false h = sym h
bool_eq→eq false true h = h
bool_eq→eq false false h = refl

bool_eq_refl : (a : Bool) → bool_eq a a ≡ true
bool_eq_refl true = refl
bool_eq_refl false = refl

==_refl : (n : ℕ) → (n == n) ≡ true
==_refl n = ground arith

is_up→eq :
    (u : Upvalue) (index : ℕ) (is_local : Bool)
    → is_up u index is_local ≡ true
    → u ≡ up index is_local
is_up→eq u index is_local h =
    let e : u.index ≡ index = ground arith in
    let e' : u.is_local ≡ is_local = bool_eq→eq u.is_local is_local (ground arith) in cc (e, e')

is_up_refl : (u : Upvalue) → is_up u u.index u.is_local ≡ true
is_up_refl u = rw (==_refl u.index, bool_eq_refl u.is_local)

-- No upvalue of the list is `u`.
abbrev pub LacksUp : List Upvalue → Upvalue → Type 0
LacksUp us u = (j : ℕ) → get_elem? us j ≢ some u

lacks : (v : Upvalue) (us : List Upvalue) (u : Upvalue) → v ≢ u → LacksUp us u → LacksUp (v ∷ us) u
lacks v us u ne h zero e = ne (cc e)
lacks v us u ne h (suc j) e = h j e

data Search (us : List Upvalue) (i : ℕ) (u : Upvalue) : Option ℕ → Type 0 where
  there : {k : ℕ} (j : ℕ) → k ≡ i + j → get_elem? us j ≡ some u → Search us i u (some k)
  nowhere : LacksUp us u → Search us i u none

Search-cons :
    (v : Upvalue) (us : List Upvalue) (i : ℕ) (u : Upvalue) {r : Option ℕ}
    → v ≢ u
    → Search us (suc i) u r
    → Search (v ∷ us) i u r
Search-cons v us i u ne (there j e h) = there (suc j) (omega (arith, e)) h
Search-cons v us i u ne (nowhere h) = nowhere (lacks v us u ne h)

find_upvalue-Search :
    (us : List Upvalue) (i index : ℕ) (is_local : Bool)
    → Search us i (up index is_local) (find_upvalue us i index is_local)
unfolding find_upvalue
find_upvalue-Search [] i index is_local = nowhere (λ j e. cc e)
find_upvalue-Search (u ∷ us) i index is_local = elim (Bool-cases (is_up u index is_local)) [
  | inl e ↦ rw e (there 0 (omega arith) (ap some (is_up→eq u index is_local e)))
  | inr n ↦ rw n (
      Search-cons u us i (up index is_local)
        (λ same. cc (n, is_up_refl u, ap (λ v. v.index) same, ap (λ v. v.is_local) same))
        (find_upvalue-Search us (suc i) index is_local))
]

from_Search :
    (us : List Upvalue) (index : ℕ) (is_local : Bool) {r : Option ℕ}
    → Search us 0 (up index is_local) r
    → ((k : ℕ) × (r ≡ some k) × (get_elem? us k ≡ some (up index is_local)))
      ⊎ ((r ≡ none) × LacksUp us (up index is_local))
from_Search us index is_local (there {k = k} j e h) =
    let e' : j ≡ k = omega (arith, e) in inl (k, refl, rw (← e') h)
from_Search us index is_local (nowhere h) = inr (refl, h)

-- The two ways in which the search ends.
found :
    (us : List Upvalue) (index : ℕ) (is_local : Bool)
    → ((k : ℕ) × (find_upvalue us 0 index is_local ≡ some k)
        × (get_elem? us k ≡ some (up index is_local)))
      ⊎ ((find_upvalue us 0 index is_local ≡ none) × LacksUp us (up index is_local))
found us index is_local = from_Search us index is_local (find_upvalue-Search us 0 index is_local)

-- No upvalue stands twice.
abbrev pub IsDistinct : List Upvalue → Type 0
IsDistinct us = (i j : ℕ) (u : Upvalue) → get_elem? us i ≡ some u → get_elem? us j ≡ some u → i ≡ j

-- The upvalues of a compiler: at most 256, each once, and as many as its function says.
pub record HasUpvalues (s : State) (c : Compiler) : Type 0 where
  pub f : ObjFunction
  pub object : get_elem? s.memory.objects c.function ≡ some (function f)
  pub counted : f.upvalue_count ≡ length c.upvalues
  pub few : length c.upvalues ≤ uint8_count
  pub distinct : IsDistinct c.upvalues

module _ (u : Upvalue) where
  append_cases :
      (us : List Upvalue) (j : ℕ) (w : Upvalue)
      → get_elem? (us ++ u ∷ []) j ≡ some w
      → (get_elem? us j ≡ some w) ⊎ ((j ≡ length us) × (u ≡ w))
  append_cases [] zero w h = inr (refl, cc h)
  append_cases [] (suc j) w h = absurd (cc h)
  append_cases (v ∷ us) zero w h = inl h
  append_cases (v ∷ us) (suc j) w h = elim (append_cases us j w h) [
    | inl h' ↦ inl h'
    | inr (e, e') ↦ inr (ap suc e, e')
  ]

  IsDistinct-append : (us : List Upvalue) → LacksUp us u → IsDistinct us → IsDistinct (us ++ u ∷ [])
  IsDistinct-append us gone d i j w h k = elim (append_cases us i w h) [
    | inl h' ↦ elim (append_cases us j w k) [
      | inl k' ↦ d i j w h' k'
      | inr (e, e') ↦ absurd (gone i (h' ∙ ap some (sym e')))
    ]
    | inr (e, e') ↦ elim (append_cases us j w k) [
      | inl k' ↦ absurd (gone j (k' ∙ ap some (sym e')))
      | inr (e₂, _) ↦ e ∙ sym e₂
    ]
  ]

-- What `addUpvalue` answers: the index of the upvalue, or 0 with an error if there is none and no
-- room for it.
pub data Added (s : State) (c : Compiler) (u : Upvalue) (k : ℕ) (c' : Compiler)
    : State → Type 0 where
  stands :
      {s' : State} → get_elem? c'.upvalues k ≡ some u → s'.reports ≡ s.reports → Added s c u k c' s'
  full :
      length c.upvalues ≡ uint8_count
      → LacksUp c.upvalues u
      → Added s c u k c' (error_at s.previous (codes "Too many closure variables in function.") s)

error_at-HasUpvalues :
    (s : State) (c : Compiler) (message : Bytes)
    → HasUpvalues s c
    → HasUpvalues (error_at s.previous message s) c
unfolding error_at
error_at-HasUpvalues s c message h =
    if_elim (λ t. HasUpvalues t c) s.panic_mode (λ e. h)
      (λ e. record {
        f = h.f;
        object = h.object;
        counted = h.counted;
        few = h.few;
        distinct = h.distinct;
      })

-- `addUpvalue` ends with the index at which the upvalue stands, a new one only if there was none;
-- or with an error, if there was none and 256 others. The upvalues that were there keep their
-- indices, and there are at most 256, each once, and as many as the function counts.
pub add_upvalue-Added :
    (s : State) (c : Compiler) (index : ℕ) (is_local : Bool)
    → HasUpvalues s c
    → (k : ℕ) × (c' : Compiler) × (s' : State) × (add_upvalue c index is_local s
        ≡ some ((k, c'), s'))
      × HasUpvalues s' c'
      × ((j : ℕ) (w : Upvalue) → get_elem? c.upvalues j ≡ some w → get_elem? c'.upvalues j ≡ some w)
      × Added s c (up index is_local) k c' s'
unfolding add_upvalue count_upvalue error error_at
add_upvalue-Added s c index is_local h =
    let u = up index is_local in
    elim (found c.upvalues index is_local) [
      | inl (k, e, here) ↦ (k, c, s, rw (add_upvalue, e), h, λ j w g. g, stands here refl)
      | inr (e, gone) ↦ elim (Bool-cases (length c.upvalues == uint8_count)) [
        | inl most ↦ (
          0,
          c,
          error_at s.previous (codes "Too many closure variables in function.") s,
          rw (add_upvalue, e, most, ◌>>=◌),
          error_at-HasUpvalues s c _ h,
          λ j w g. g,
          full (ground arith) gone,
        )
        | inr room ↦ (
          length c.upvalues,
          record c { upvalues = c.upvalues ++ u ∷ [] },
          record s {
            memory = record (s.memory) {
              objects =
                  set s.memory.objects c.function
                    (function (record (h.f) { upvalue_count = h.f.upvalue_count + 1 }));
            };
          },
          rw (add_upvalue, e, room, ◌>>=◌, h.object),
          record {
            f = record (h.f) { upvalue_count = h.f.upvalue_count + 1 };
            object =
                get_elem?-set_self s.memory.objects c.function _
                  (get_elem?-lt s.memory.objects _ h.object);
            counted = omega (arith, h.counted, length-append c.upvalues (u ∷ []));
            few = ground (arith, h.few, length-append c.upvalues (u ∷ []));
            distinct = IsDistinct-append u c.upvalues gone h.distinct;
          },
          λ j w g. get_elem?-append_left c.upvalues u j (get_elem?-lt c.upvalues j g) ∙ g,
          stands (get_elem?-append_end c.upvalues u) refl,
        )
      ]
    ]
