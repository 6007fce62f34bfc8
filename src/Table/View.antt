-- ===== src/Table/View.antt =====
-- What a table means: a finite map, read off its entries in the order in which they stand,
-- whatever the hashes are. And when entries are well placed for `findEntry`.
use yscript.Prelude.{
  ℕ, zero, suc, ◌+◌, ◌≤◌, ◌<◌, ◌≡◌, refl, ◌≢◌, ◌⊎◌, inl, inr, List, [], ◌∷◌, Bool, true, false,
  Option, none, some, arith, ◌==◌, if◌then◌else◌, length, Bool-cases, Option-cases,
}
use native.Mathlib.Decide.{ℕ_discrete, dec_lt}
use yscript.Value.{Ptr, Value, is_nil, ObjString, Entry}
use yscript.Table.{entry_at}
use yscript.Table.Probe.{probe, IsFree, is_nil→eq, hash_of, Outcome, found, missing}

abbrev pub has_key : Entry → Ptr → Bool
has_key e q = elim e.key [ none ↦ false | some k ↦ k == q ]

unfoldable pub view : List Entry → Ptr → Option Value
view [] q = none
view (e ∷ es) q = if has_key e q then some e.value else view es q

-- 0 for a free slot, and 1 for a key or a tombstone.
unfoldable pub weight : Entry → ℕ
weight e = elim e.key [ none ↦ if is_nil e.value then 0 else 1 | some _ ↦ 1 ]

-- Slots that are not free.
unfoldable pub used : List Entry → ℕ
used [] = 0
used (e ∷ es) = weight e + used es

pub weight-le : (e : Entry) → weight e ≤ 1
unfolding weight
weight-le e = ground arith

pub weight_free : (e : Entry) → weight e ≡ 0 → IsFree e
unfolding weight
weight_free e h = elim (Option-cases e.key) [
  | inl k ↦
      (k, elim (Bool-cases (is_nil e.value)) [ inl b ↦ is_nil→eq e.value b | inr b ↦ ground arith ])
  | inr (k, e') ↦ ground arith
]

pub weight_of_free : (e : Entry) → IsFree e → weight e ≡ 0
unfolding weight
weight_of_free e f = rw (f.0, f.1)

pub weight_used : (e : Entry) → ¬ IsFree e → weight e ≡ 1
weight_used e h = elim (ℕ_discrete (weight e) 0) [
  | yes z ↦ absurd (h (weight_free e z))
  | no n ↦ omega (arith, weight-le e)
]

abbrev pub HasAt : List Entry → Ptr → ℕ → Type 0
HasAt entries q i = (entry_at entries i).key ≡ some q

-- No key stands twice.
abbrev pub IsUnique : List Entry → Type 0
IsUnique entries = (q : Ptr) (i j : ℕ) → HasAt entries q i → HasAt entries q j → i ≡ j

has_key-eq : (e : Entry) (q : Ptr) → e.key ≡ some q → has_key e q ≡ true
has_key-eq e q h = rw h (ground arith)

eq-has_key : (e : Entry) (q : Ptr) → has_key e q ≡ true → e.key ≡ some q
eq-has_key e q h = ground arith

pub HasAt-lt : (entries : List Entry) (q : Ptr) (i : ℕ) → HasAt entries q i → i < length entries
HasAt-lt [] q i h = cc
HasAt-lt (e ∷ es) q zero h = omega arith
HasAt-lt (e ∷ es) q (suc i) h = omega (arith, HasAt-lt es q i h)

pub view-hit :
    (entries : List Entry) (q : Ptr) (i : ℕ)
    → IsUnique entries
    → HasAt entries q i
    → view entries q ≡ some (entry_at entries i).value
unfolding view
view-hit [] q i u h = cc
view-hit (e ∷ es) q zero u h = rw (has_key-eq e q h)
view-hit (e ∷ es) q (suc i) u h = elim (Bool-cases (has_key e q)) [
  | inl here ↦ absurd (omega (arith, u q 0 (suc i) (eq-has_key e q here) h))
  | inr away ↦ rw away (view-hit es q i (λ k a b x y. omega (arith, u k (suc a) (suc b) x y)) h)
]

pub view-miss :
    (entries : List Entry) (q : Ptr) → ((i : ℕ) → ¬ HasAt entries q i) → view entries q ≡ none
unfolding view
view-miss [] q h = refl
view-miss (e ∷ es) q h = elim (Bool-cases (has_key e q)) [
  | inl here ↦ absurd (h 0 (eq-has_key e q here))
  | inr away ↦ rw away (view-miss es q (λ i. h (suc i)))
]

-- A key is in the table or it is not.
pub HasAt-cases :
    (entries : List Entry) (q : Ptr)
    → ((i : ℕ) × HasAt entries q i) ⊎ ((i : ℕ) → ¬ HasAt entries q i)
HasAt-cases [] q = inr (λ i h. cc)
HasAt-cases (e ∷ es) q = elim (Bool-cases (has_key e q)) [
  | inl here ↦ inl (0, eq-has_key e q here)
  | inr away ↦ elim (HasAt-cases es q) [
    | inl (i, h) ↦ inl (suc i, h)
    | inr n ↦ inr (elim [ zero ↦ λ h. cc (away, has_key-eq e q h) | suc i ↦ n i ])
  ]
]

pub free_slot :
    (entries : List Entry)
    → used entries < length entries
    → (i : ℕ) × (i < length entries) × IsFree (entry_at entries i)
unfolding used
free_slot [] h = absurd (omega arith)
free_slot (e ∷ es) h = elim (ℕ_discrete (weight e) 0) [
  | yes z ↦ (0, omega arith, weight_free e z)
  | no n ↦ let (i, lt, f) = free_slot es (omega (arith, weight-le e)) in (suc i, omega arith, f)
]

-- The entries fill the slots, no key stands twice, and the probe of a key that is there passes
-- over no free slot before it.
pub record IsPlaced (strings : Ptr → ObjString) (entries : List Entry) (capacity : ℕ) : Type 0 where
  pub size : length entries ≡ capacity
  pub unique : IsUnique entries
  pub reach :
      (q : Ptr) (i : ℕ)
      → HasAt entries q i
      → (n : ℕ) × (i ≡ probe capacity (hash_of strings q) n)
        × ((l : ℕ) → l < n → ¬ IsFree (entry_at entries (probe capacity (hash_of strings q) l)))

-- What a probe tells of the whole table.
pub data Finds (entries : List Entry) (key : Ptr) (r : ℕ) : Type 0 where
  present : HasAt entries key r → Finds entries key r
  absent : (entry_at entries r).key ≡ none → ((i : ℕ) → ¬ HasAt entries key i) → Finds entries key r

module _ (strings : Ptr → ObjString) (entries : List Entry) (capacity : ℕ) where
  -- A path without the key that ends at a free slot leaves no place for the key.
  not_beyond :
      (key : Ptr) (n : ℕ)
      → IsPlaced strings entries capacity
      → ((l : ℕ)
          → l < n
          → (entry_at entries (probe capacity (hash_of strings key) l)).key ≢ some key)
      → IsFree (entry_at entries (probe capacity (hash_of strings key) n))
      → (i : ℕ) → ¬ HasAt entries key i
  not_beyond key n p other free i h =
      let (m, e, path) = p.reach key i h in
      let h' = rw e at h in
      elim (dec_lt m n) [
        | yes lt ↦ other m lt h'
        | no ge ↦ elim (dec_lt n m) [
          | yes gt ↦ path n gt free
          | no le ↦ let same : m ≡ n = omega arith in cc (free.0, rw same at h')
        ]
      ]

  pub Outcome-Finds :
      (key : Ptr) {r : ℕ}
      → IsPlaced strings entries capacity
      → Outcome entries capacity (hash_of strings key) key r
      → Finds entries key r
  Outcome-Finds key p (found h) = present h
  Outcome-Finds key p (missing n h other free) = absent h (not_beyond key n p other free)
