-- ===== src/Table/White.antt =====
-- `tableRemoveWhite` of src/common/hashtable.cc takes the keys that are not marked out of the map.
use mathlib.Core.Path.{subst}
use yscript.Prelude.{
  ℕ, zero, suc, ◌+◌, ◌≤◌, ◌<◌, ◌≡◌, ◌≢◌, refl, sym, ap, ◌∙◌, inl, inr, List, Bool, true, false,
  Option, none, some, arith, ◌==◌, if◌then◌else◌, length, set, get_or-set_self, get_or-set_ne,
  length-set, Bool-cases, Option-cases,
}
use native.Mathlib.Decide.{ℕ_discrete}
use yscript.Value.{Ptr, ObjString, Entry, Table}
use yscript.Table.{
  entry_at, empty_entry, tombstone_entry, ◌>>=◌, find_entry, table_delete, remove_white_loop,
  table_remove_white,
}
use yscript.Table.View.{view, HasAt, HasAt-lt, view-hit, view-miss}
use yscript.Table.Map.{IsValid, Wrote}
use yscript.Table.Lookup.{table_delete-Wrote}

-- A tombstone leaves the other keys where they are.
HasAt-tombstone :
    (es : List Entry) (r : ℕ) (q : Ptr) (j : ℕ)
    → HasAt (set es r tombstone_entry) q j
    → HasAt es q j
HasAt-tombstone es r q j h = elim (ℕ_discrete r j) [
  | no apart ↦
      ap (λ (e : Entry). e.key) (sym (get_or-set_ne es r j tombstone_entry empty_entry apart)) ∙ h
  | yes e ↦
      let lt : r < length es = omega (arith, HasAt-lt _ q j h, length-set es r tombstone_entry) in
      let buried : entry_at (set es r tombstone_entry) j ≡ tombstone_entry =
        rw⁻¹ e (get_or-set_self es r tombstone_entry empty_entry lt) in
      let gone : ◌≡◌ {A = Option Ptr} none (some q) = sym (ap (λ (e : Entry). e.key) buried) ∙ h in
      absurd (cc gone)
]

-- What an operation that only takes keys out keeps.
record Shrinks (t t' : Table) : Type 0 where
  same_capacity : t'.capacity ≡ t.capacity
  only : (q : Ptr) (j : ℕ) → HasAt t'.entries q j → HasAt t.entries q j

module _ (strings : Ptr → ObjString) (t : Table) (key : Ptr) where
  table_delete-Shrinks :
      {b : Bool} {t' : Table} → table_delete strings t key ≡ some (b, t') → Shrinks t t'
  unfolding table_delete
  table_delete-Shrinks {b = b} {t' = t'} run = elim (Bool-cases (t.count == 0)) [
    | inl e ↦
        let here : ◌≡◌ {A = Option (Bool × Table)} (some (false, t)) (some (b, t')) = rw e at run in
        same here
    | inr n ↦ elim (Option-cases (find_entry strings t.entries t.capacity key)) [
      | inl lost ↦
          let here : ◌≡◌ {A = Option (Bool × Table)} none (some (b, t')) = rw (n, lost) at run in
          absurd (cc here)
      | inr (i, found) ↦ elim (Option-cases (entry_at t.entries i).key) [
        | inl free ↦
            let here : ◌≡◌ {A = Option (Bool × Table)} (some (false, t)) (some (b, t')) =
              rw (n, found, ◌>>=◌, free) at run in
            same here
        | inr (k, used) ↦
            let here : ◌≡◌ {A = Option (Bool × Table)}
                (some (true, record t { entries = set t.entries i tombstone_entry }))
                (some (b, t')) =
              rw (n, found, ◌>>=◌, used) at run in
            let e : record t { entries = set t.entries i tombstone_entry } ≡ t' = cc here in
            subst (Shrinks t) e
              (record { same_capacity = refl; only = HasAt-tombstone t.entries i })
      ]
    ]
  ]
    where
      same :
          {b b' : Bool} {t' : Table}
          → ◌≡◌ {A = Option (Bool × Table)} (some (b', t)) (some (b, t'))
          → Shrinks t t'
      same {t' = t'} h =
          let e : t ≡ t' = cc h in
          subst (Shrinks t) e (record { same_capacity = refl; only = λ q j h. h })

module _ (strings : Ptr → ObjString) (marked : Ptr → Bool) where
  -- The keys that are not marked stand at `i` and behind.
  abbrev IsClearTo : ℕ → Table → Type 0
  IsClearTo i t = (q : Ptr) (j : ℕ) → marked q ≡ false → HasAt t.entries q j → i ≤ j

  record Whitened (i : ℕ) (t t' : Table) : Type 0 where
    valid : IsValid strings t'
    same_capacity : t'.capacity ≡ t.capacity
    marked_stay : (q : Ptr) → marked q ≡ true → view t'.entries q ≡ view t.entries q
    clear : IsClearTo i t'

  -- A key that is left by the write of `none` at `k` is another one.
  gone_key :
      (t t' : Table) (k : Ptr)
      → Wrote strings (view t.entries) k none t'
      → (j : ℕ) → ¬ HasAt t'.entries k j
  gone_key t t' k w j h =
      let seen = view-hit t'.entries k j w.valid.placed.unique h in
      let here : (k == k) ≡ true = ground arith in
      let gone : view t'.entries k ≡ none = w.means k ∙ rw here in absurd (cc (seen, gone))

  module _ (n i : ℕ) (t : Table) where
    white_free :
        (entry_at t.entries i).key ≡ none
        → remove_white_loop strings marked (suc n) i t
          ≡ remove_white_loop strings marked n (i + 1) t
    unfolding remove_white_loop
    white_free free = rw (remove_white_loop, free)

    white_marked :
        {k : Ptr}
        → (entry_at t.entries i).key ≡ some k
        → marked k ≡ true
        → remove_white_loop strings marked (suc n) i t
          ≡ remove_white_loop strings marked n (i + 1) t
    unfolding remove_white_loop
    white_marked used m = rw (remove_white_loop, used, m)

    white_unmarked :
        {k : Ptr} {b : Bool} {t' : Table}
        → (entry_at t.entries i).key ≡ some k
        → marked k ≡ false
        → table_delete strings t k ≡ some (b, t')
        → remove_white_loop strings marked (suc n) i t
          ≡ remove_white_loop strings marked n (i + 1) t'
    unfolding remove_white_loop
    white_unmarked used m deleted = rw (remove_white_loop, used, m, deleted, ◌>>=◌)

  remove_white_loop-Whitened :
      (n i : ℕ) (t : Table)
      → IsValid strings t
      → IsClearTo i t
      → (t' : Table) × (remove_white_loop strings marked n i t ≡ some t') × Whitened (i + n) t t'
  unfolding remove_white_loop
  remove_white_loop-Whitened zero i t v c = (
    t,
    refl,
    record {
      valid = v;
      same_capacity = refl;
      marked_stay = λ q m. refl;
      clear = λ q j m h. omega (arith, c q j m h);
    },
  )
  remove_white_loop-Whitened (suc n) i t v c = elim (Option-cases (entry_at t.entries i).key) [
    | inl free ↦
        let (t', run, w) = remove_white_loop-Whitened n (i + 1) t v (λ q j m h.
          elim (ℕ_discrete i j) [
            | yes e ↦ absurd (cc (free, h, e))
            | no ne ↦ omega (arith, c q j m h)
          ]) in
        (t', white_free n i t free ∙ run, shift n i t t' w)
    | inr (k, used) ↦ elim (Bool-cases (marked k)) [
      | inl m_k ↦
          let (t', run, w) = remove_white_loop-Whitened n (i + 1) t v (λ q j m h.
            elim (ℕ_discrete i j) [
              | yes e ↦ absurd (cc (m_k, m, used, h, e))
              | no ne ↦ omega (arith, c q j m h)
            ]) in
          (t', white_marked n i t used m_k ∙ run, shift n i t t' w)
      | inr m_k ↦
          let (t₁, deleted, wrote) = table_delete-Wrote strings t k v in
          let shrinks = table_delete-Shrinks strings t k deleted in
          let (t', run, w) = remove_white_loop-Whitened n (i + 1) t₁ wrote.valid (λ q j m h.
            elim (ℕ_discrete i j) [
              | yes e ↦
                  let same : k ≡ q = cc (used, shrinks.only q j h, e) in
                  absurd (gone_key t t₁ k wrote j (subst (λ x. HasAt t₁.entries x j) (sym same) h))
              | no ne ↦ omega (arith, c q j m (shrinks.only q j h))
            ]) in
          (
            t',
            white_unmarked n i t used m_k deleted ∙ run,
            record {
              valid = w.valid;
              same_capacity = w.same_capacity ∙ shrinks.same_capacity;
              marked_stay = λ q m.
                  let apart : k ≢ q = λ e. cc (m_k, m, e) in
                  let test : (k == q) ≡ false = ground arith in
                  w.marked_stay q m ∙ wrote.means q ∙ rw test;
              clear = (shift n i t₁ t' w).clear;
            },
          )
    ]
  ]
    where
      shift : (n i : ℕ) (t t' : Table) → Whitened (i + 1 + n) t t' → Whitened (i + suc n) t t'
      shift n i t t' w =
          let e : i + 1 + n ≡ i + suc n = omega arith in subst (λ k. Whitened k t t') e w

  -- On a well formed table `tableRemoveWhite` ends with a well formed table, in which the keys that are
  -- marked have the values that they had, and the others are gone.
  pub table_remove_white-marked :
      (t : Table)
      → IsValid strings t
      → (t' : Table) × (table_remove_white strings marked t ≡ some t')
        × IsValid strings t'
        × ((q : Ptr) → view t'.entries q ≡ (if marked q then view t.entries q else none))
  unfolding table_remove_white
  table_remove_white-marked t v =
      let (t', run, w) = remove_white_loop-Whitened t.capacity 0 t v (λ q j m h. omega arith) in
      (
        t',
        run,
        w.valid,
        λ q. elim (Bool-cases (marked q)) [
          | inl m ↦ rw m (w.marked_stay q m)
          | inr m ↦ rw m (
              view-miss t'.entries q (λ j h. absurd (
                omega (
                  arith,
                  w.clear q j m h,
                  HasAt-lt t'.entries q j h,
                  w.valid.placed.size,
                  w.same_capacity,
                ))))
        ],
      )
