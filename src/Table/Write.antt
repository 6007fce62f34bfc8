-- ===== src/Table/Write.antt =====
-- A write to the slot at which a probe for the key has ended.
use yscript.Prelude.{
  ℕ, zero, suc, ◌+◌, ◌<◌, ◌≡◌, sym, ap, ◌∙◌, ◌≢◌, ◌⊎◌, inl, inr, List, [], ◌∷◌, Option, none, some,
  arith, ◌==◌, if◌then◌else◌, length, set, length-set, get_or-set_self, get_or-set_ne, Bool-cases,
  Option-cases,
}
use native.Mathlib.Decide.{ℕ_discrete}
use yscript.Value.{Ptr, Value, ObjString, Entry}
use yscript.Table.{entry_at, empty_entry}
use yscript.Table.Probe.{IsFree, hash_of, Landed}
use yscript.Table.View.{
  view, weight, used, weight_used, HasAt, IsUnique, view-hit, view-miss, HasAt-cases, IsPlaced,
  Finds, present, absent,
}

used-set :
    (entries : List Entry) (r : ℕ) (x : Entry)
    → r < length entries
    → used (set entries r x) + weight (entry_at entries r) ≡ used entries + weight x
unfolding used
used-set [] r x h = absurd (omega arith)
used-set (e ∷ es) zero x h = omega arith
used-set (e ∷ es) (suc r) x h = omega (arith, used-set es r x (omega arith))

-- What an entry holds for the key under which it was written.
abbrev pub content : Entry → Option Value
content x = elim x.key [ none ↦ none | some _ ↦ some x.value ]

content-some : (x : Entry) {k : Ptr} → x.key ≡ some k → content x ≡ some x.value
content-some x e = rw e

content-none : (x : Entry) → x.key ≡ none → content x ≡ none
content-none x e = rw e

module _ (strings : Ptr → ObjString) (entries : List Entry) (capacity : ℕ) (key : Ptr) (r : ℕ)
    (x : Entry) (placed : IsPlaced strings entries capacity)
    (landed : Landed entries capacity (hash_of strings key) key r) (finds : Finds entries key r)
    (within : r < length entries) (solid : ¬ IsFree x)
    (own : (q : Ptr) → x.key ≡ some q → q ≡ key) where
  abbrev after : List Entry
  after = set entries r x

  read_self : entry_at after r ≡ x
  read_self = get_or-set_self entries r x empty_entry within

  read_other : (i : ℕ) → i ≢ r → entry_at after i ≡ entry_at entries i
  read_other i ne = get_or-set_ne entries r i x empty_entry (λ e. ne (sym e))

  HasAt-after :
      (q : Ptr) (i : ℕ)
      → HasAt after q i
      → ((i ≡ r) × (x.key ≡ some q) × (q ≡ key)) ⊎ ((i ≢ r) × HasAt entries q i)
  HasAt-after q i h = elim (ℕ_discrete i r) [
    | yes e ↦ let k : x.key ≡ some q = rw (e, read_self) at h in inl (e, k, own q k)
    | no ne ↦ inr (ne, rw (read_other i ne) at h)
  ]

  -- The key stood nowhere but in the slot that is written.
  only_here : (i : ℕ) → HasAt entries key i → i ≡ r
  only_here i h = elim finds [
    | present here ↦ placed.unique key i r h here
    | absent k gone ↦ absurd (gone i h)
  ]

  -- No other key stood there.
  no_other : (q : Ptr) → HasAt entries q r → q ≡ key
  no_other q h = elim finds [ present here ↦ cc (h, here) | absent k gone ↦ cc (h, k) ]

  after-IsUnique : IsUnique after
  after-IsUnique q i j h k = elim (HasAt-after q i h) [
    | inl (e, _, own_i) ↦ elim (HasAt-after q j k) [
      | inl (e', _, _) ↦ e ∙ sym e'
      | inr (ne, k') ↦ absurd (ne (only_here j (rw own_i at k')))
    ]
    | inr (ne, h') ↦ elim (HasAt-after q j k) [
      | inl (e', _, own_j) ↦ absurd (ne (only_here i (rw own_j at h')))
      | inr (_, k') ↦ placed.unique q i j h' k'
    ]
  ]

  still_used : (s : ℕ) → ¬ IsFree (entry_at entries s) → ¬ IsFree (entry_at after s)
  still_used s nf = elim (ℕ_discrete s r) [
    | yes e ↦ rw (e, read_self) solid
    | no ne ↦ rw (read_other s ne) nf
  ]

  pub after-IsPlaced : IsPlaced strings after capacity
  after-IsPlaced = record {
    size = length-set entries r x ∙ placed.size;
    unique = after-IsUnique;
    reach = λ q i h. elim (HasAt-after q i h) [
      | inl (e, _, is_key) ↦
          rw is_key (landed.distance, e ∙ landed.place, λ l lt. still_used _ (landed.path l lt))
      | inr (_, h') ↦
          let (n, e, path) = placed.reach q i h' in (n, e, λ l lt. still_used _ (path l lt))
    ];
  }

  pub used-after : used after + weight (entry_at entries r) ≡ used entries + 1
  used-after = omega (arith, used-set entries r x within, weight_used x solid)

  view_key : view after key ≡ content x
  view_key = elim (Option-cases x.key) [
    | inr (k, e) ↦
        let here : HasAt after key r = rw read_self (rw (own k e) at e) in
        view-hit after key r after-IsUnique here
        ∙ (ap (λ (y : Entry). some y.value) read_self ∙ sym (content-some x e))
    | inl e ↦
        view-miss after key (λ i h. elim (HasAt-after key i h) [
          | inl (_, k, _) ↦ cc (k, e)
          | inr (ne, h') ↦ ne (only_here i h')
        ])
        ∙ sym (content-none x e)
  ]

  view_other : (q : Ptr) → q ≢ key → view after q ≡ view entries q
  view_other q ne = elim (HasAt-cases entries q) [
    | inl (i, h) ↦
        let apart : i ≢ r = λ e. ne (no_other q (rw e at h)) in
        let h' : HasAt after q i = rw (read_other i apart) h in
        view-hit after q i after-IsUnique h'
        ∙ (ap (λ (e : Entry). some e.value) (read_other i apart)
            ∙ sym (view-hit entries q i placed.unique h))
    | inr gone ↦
        view-miss after q (λ i h. elim (HasAt-after q i h) [
          | inl (_, _, is_key) ↦ ne is_key
          | inr (_, h') ↦ gone i h'
        ])
        ∙ sym (view-miss entries q gone)
  ]

  -- The write changes the map at the key alone.
  pub view-after : (q : Ptr) → view after q ≡ (if key == q then content x else view entries q)
  view-after q = elim (Bool-cases (key == q)) [
    | inl e ↦ let is_key : key ≡ q = ground arith in rw (e, ← is_key) view_key
    | inr n ↦ rw n (view_other q (ground arith))
  ]
