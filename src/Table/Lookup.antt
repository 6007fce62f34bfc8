-- ===== src/Table/Lookup.antt =====
-- `tableGet` and `tableDelete` of src/common/hashtable.cc against the map, and what the operations
-- are to one another.
use yscript.Prelude.{
  ℕ, zero, suc, ◌<◌, ◌≡◌, inl, inr, List, [], ◌∷◌, not, none, some, arith, ◌==◌, if◌then◌else◌, set,
  Bool-cases,
}
use yscript.Value.{Ptr, Value, ObjString, Entry, Table}
use yscript.Table.{entry_at, tombstone_entry, ◌>>=◌, table_get, table_set, table_delete}
use yscript.Table.Probe.{IsFree}
use yscript.Table.View.{view, weight, used, HasAt, view-miss}
use yscript.Table.Write.{after-IsPlaced, used-after, view-after}
use yscript.Table.Map.{IsValid, Wrote, is_none, weight-some, hit, miss, look, table_set-Wrote}

pub used-pos : (es : List Entry) (q : Ptr) (i : ℕ) → HasAt es q i → 0 < used es
unfolding used weight
used-pos [] q i h = cc
used-pos (e ∷ es) q zero h = rw h (omega arith)
used-pos (e ∷ es) q (suc i) h = omega (arith, used-pos es q i h)

-- A table that uses no slot means the empty map.
view_unused : (es : List Entry) (q : Ptr) → used es ≡ 0 → view es q ≡ none
view_unused es q h = view-miss es q (λ i k. absurd (omega (arith, used-pos es q i k)))

module _ (strings : Ptr → ObjString) (t : Table) (key : Ptr) (v : IsValid strings t) where
  -- `tableGet` on a well formed table ends with the value that the map has at the key.
  pub table_get-view : table_get strings t key ≡ some (view t.entries key)
  unfolding table_get
  table_get-view = elim (Bool-cases (t.count == 0)) [
    | inl e ↦ rw (e, view_unused t.entries key (ground (arith, v.counted)))
    | inr n ↦ elim (look strings t key v.placed (ground (arith, v.counted, v.loaded))) [
      | hit r l h seen ↦ rw (n, l.run, ◌>>=◌, h, seen)
      | miss r l h gone ↦ rw (n, l.run, ◌>>=◌, h, gone)
    ]
  ]

  -- Taking out a key that is not there changes nothing.
  unchanged :
      view t.entries key ≡ none
      → (q : Ptr) → view t.entries q ≡ (if key == q then none else view t.entries q)
  unchanged gone q = elim (Bool-cases (key == q)) [
    | inl e ↦ let same : q ≡ key = ground arith in rw (e, same) gone
    | inr n ↦ rw n
  ]

  grave-solid : ¬ IsFree tombstone_entry
  grave-solid f = cc (f.1)

  grave-own : (q : Ptr) → tombstone_entry.key ≡ some q → q ≡ key
  grave-own q e = cc

  -- On a well formed table `tableDelete` ends, says whether the key was there, and takes it out of
  -- the map and nothing else; the table stays well formed.
  pub table_delete-Wrote :
      (t' : Table) × (table_delete strings t key ≡ some (not (is_none (view t.entries key)), t'))
      × Wrote strings (view t.entries) key none t'
  unfolding table_delete
  table_delete-Wrote = elim (Bool-cases (t.count == 0)) [
    | inl e ↦
        let gone = view_unused t.entries key (ground (arith, v.counted)) in
        (t, rw (e, gone), record { valid = v; means = unchanged gone })
    | inr n ↦ elim (look strings t key v.placed (ground (arith, v.counted, v.loaded))) [
      | miss r l h gone ↦
          (t, rw (n, l.run, ◌>>=◌, h, gone), record { valid = v; means = unchanged gone })
      | hit r l h seen ↦
          let size =
            used-after strings t.entries t.capacity key r tombstone_entry v.placed l.landed l.finds
              l.within grave-solid grave-own in
          (
            record t { entries = set t.entries r tombstone_entry },
            rw (n, l.run, ◌>>=◌, h, seen),
            record {
              valid = record {
                placed =
                    after-IsPlaced strings t.entries t.capacity key r tombstone_entry v.placed
                      l.landed l.finds l.within grave-solid grave-own;
                counted = omega (arith, size, v.counted, weight-some (entry_at t.entries r) h);
                loaded = v.loaded;
              };
              means =
                  view-after strings t.entries t.capacity key r tombstone_entry v.placed l.landed
                    l.finds l.within grave-solid grave-own;
            },
          )
    ]
  ]

-- A `tableGet` after a `tableSet` sees the new value at the key, and at any other key what the
-- table held before.
pub table_get-table_set :
    (strings : Ptr → ObjString) (t : Table) (key q : Ptr) (value : Value)
    → IsValid strings t
    → (table_set strings t key value >>= λ r. table_get strings r.1 q)
      ≡ (if key == q then some (some value) else table_get strings t q)
table_get-table_set strings t key q value v =
    let (t', run, w) = table_set-Wrote strings t key value v in
    rw (run, ◌>>=◌, table_get-view strings t' q w.valid, w.means q, table_get-view strings t q v)
      (elim (Bool-cases (key == q)) [ inl e ↦ rw e | inr n ↦ rw n ])

-- A `tableGet` after a `tableDelete` misses the key, and sees any other key as before.
pub table_get-table_delete :
    (strings : Ptr → ObjString) (t : Table) (key q : Ptr)
    → IsValid strings t
    → (table_delete strings t key >>= λ r. table_get strings r.1 q)
      ≡ (if key == q then some none else table_get strings t q)
table_get-table_delete strings t key q v =
    let (t', run, w) = table_delete-Wrote strings t key v in
    rw (run, ◌>>=◌, table_get-view strings t' q w.valid, w.means q, table_get-view strings t q v)
      (elim (Bool-cases (key == q)) [ inl e ↦ rw e | inr n ↦ rw n ])
