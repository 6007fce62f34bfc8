-- ===== src/Table/Map.antt =====
-- The operations of the hash table against a finite map: the invariant, and what
-- `tableGet`, `tableSet` and `tableDelete` of src/common/hashtable.cc answer and change.
use yscript.Prelude.{
  ℕ, ◌+◌, ◌*◌, ◌≤◌, ◌<◌, ◌≡◌, refl, sym, ap, ◌∙◌, inl, inr, Bool, true, false, Option, none, some,
  arith, ◌==◌, if◌then◌else◌, set, Bool-cases,
}
use yscript.Value.{Ptr, Value, is_nil, ObjString, Entry, Table, grow_capacity}
use yscript.Table.{
  init_table, entry_at, live, ◌>>=◌, find_entry, is_crowded, make_room, set_entry, table_set,
}
use yscript.Table.Probe.{IsFree}
use yscript.Table.View.{view, weight, used, view-hit, view-miss, IsPlaced, present, absent}
use yscript.Table.Write.{after-IsPlaced, used-after, view-after}
use yscript.Table.Resize.{adjust_capacity-Moved}
use yscript.Table.Located.{Located, find_entry-Located, count_keys, count_keys-le_used}

-- A well formed table: its keys are well placed, `count` is the number of slots that are not free,
-- tombstones included, and at most three quarters of the slots are in use.
pub record IsValid (strings : Ptr → ObjString) (t : Table) : Type 0 where
  pub placed : IsPlaced strings t.entries t.capacity
  pub counted : t.count ≡ used t.entries
  pub loaded : t.count * 4 ≤ t.capacity * 3

pub init_table-IsValid : (strings : Ptr → ObjString) → IsValid strings init_table
unfolding init_table used
init_table-IsValid strings = record {
  placed = record { size = refl; unique = λ q i j h k. cc h; reach = λ q i h. absurd (cc h) };
  counted = refl;
  loaded = omega arith;
}

module _ (strings : Ptr → ObjString) (t : Table) (v : IsValid strings t) where
  -- A table with room for one more entry that means the same.
  make_room-IsValid :
      (t' : Table) × (make_room strings t ≡ some t')
      × IsValid strings t'
      × ((t'.count + 1) * 4 ≤ t'.capacity * 3)
      × ((q : Ptr) → view t'.entries q ≡ view t.entries q)
  unfolding make_room
  make_room-IsValid = elim (Bool-cases (is_crowded strings t)) [
    | inr roomy ↦ (t, rw roomy, v, ground arith, λ q. refl)
    | inl crowded ↦
        let live_le = count_keys-le_used t.entries in
        let (es, run, m) =
          adjust_capacity-Moved strings t (grow_capacity t.capacity) v.placed.unique
            (ground (arith, live_le, v.counted, v.loaded)) in
        (
          record {
            count = count_keys t.entries;
            capacity = grow_capacity t.capacity;
            entries = es;
          },
          rw crowded run,
          record {
            placed = m.placed;
            counted = sym m.counted;
            loaded = ground (arith, live_le, v.counted, v.loaded);
          },
          ground (arith, live_le, v.counted, v.loaded),
          m.means,
        )
  ]

abbrev pub is_none : Option Value → Bool
is_none none = true
is_none (some _) = false

-- What `tableSet` and `tableDelete` do to the map: they write `new` at the key, and the table stays
-- well formed. `before` is the map before.
pub record Wrote (strings : Ptr → ObjString) (before : Ptr → Option Value) (key : Ptr)
    (new : Option Value) (t : Table) : Type 0 where
  pub valid : IsValid strings t
  pub means : (q : Ptr) → view t.entries q ≡ (if key == q then new else before q)

pub weight-some : (e : Entry) {k : Ptr} → e.key ≡ some k → weight e ≡ 1
unfolding weight
weight-some e h = rw h

weight-none : (e : Entry) → e.key ≡ none → weight e ≡ (if is_nil e.value then 0 else 1)
unfolding weight
weight-none e h = rw h

-- `findEntry` at a key, and what the map holds there.
pub data Looked (strings : Ptr → ObjString) (t : Table) (key : Ptr) : Type 0 where
  hit :
      (r : ℕ)
      → Located strings t.entries t.capacity key r
      → (entry_at t.entries r).key ≡ some key
      → view t.entries key ≡ some (entry_at t.entries r).value
      → Looked strings t key
  miss :
      (r : ℕ)
      → Located strings t.entries t.capacity key r
      → (entry_at t.entries r).key ≡ none
      → view t.entries key ≡ none
      → Looked strings t key

pub look :
    (strings : Ptr → ObjString) (t : Table) (key : Ptr)
    → IsPlaced strings t.entries t.capacity
    → used t.entries < t.capacity
    → Looked strings t key
look strings t key placed room =
    let (r, l) = find_entry-Located strings t.entries t.capacity key placed room in
    elim l.finds [
      | present h ↦ hit r l h (view-hit t.entries key r placed.unique h)
      | absent n gone ↦ miss r l n (view-miss t.entries key gone)
    ]

module _ (strings : Ptr → ObjString) (t : Table) (key : Ptr) (value : Value) where
  set_entry_hit :
      {r : ℕ} {k : Ptr}
      → find_entry strings t.entries t.capacity key ≡ some r
      → (entry_at t.entries r).key ≡ some k
      → set_entry strings t key value
        ≡ some (false, record t { entries = set t.entries r (live key value) })
  unfolding set_entry
  set_entry_hit run h = rw (run, h)

  set_entry_miss :
      {r : ℕ}
      → find_entry strings t.entries t.capacity key ≡ some r
      → (entry_at t.entries r).key ≡ none
      → set_entry strings t key value
        ≡ some (
          true,
          record t {
            count = if is_nil (entry_at t.entries r).value then t.count + 1 else t.count;
            entries = set t.entries r (live key value);
          },
        )
  unfolding set_entry
  set_entry_miss run h = rw (run, h)

  live-solid : ¬ IsFree (live key value)
  live-solid f = cc (f.0)

  live-own : (q : Ptr) → some key ≡ some q → q ≡ key
  live-own q e = cc

  -- With room for one more entry, the rest of `tableSet` writes the value at the key.
  set_entry-Wrote :
      IsValid strings t
      → (t.count + 1) * 4 ≤ t.capacity * 3
      → (t' : Table) × (set_entry strings t key value ≡ some (is_none (view t.entries key), t'))
        × Wrote strings (view t.entries) key (some value) t'
  set_entry-Wrote v room = elim (look strings t key v.placed (omega (arith, v.counted))) [
    | hit r l h seen ↦
        let size =
          used-after strings t.entries t.capacity key r (live key value) v.placed l.landed l.finds
            l.within live-solid live-own in
        (
          record t { entries = set t.entries r (live key value) },
          rw seen (set_entry_hit l.run h),
          record {
            valid = record {
              placed =
                  after-IsPlaced strings t.entries t.capacity key r (live key value) v.placed
                    l.landed l.finds l.within live-solid live-own;
              counted = omega (arith, size, v.counted, weight-some (entry_at t.entries r) h);
              loaded = v.loaded;
            };
            means =
                view-after strings t.entries t.capacity key r (live key value) v.placed l.landed
                  l.finds l.within live-solid live-own;
          },
        )
    | miss r l h gone ↦
        let size =
          used-after strings t.entries t.capacity key r (live key value) v.placed l.landed l.finds
            l.within live-solid live-own in
        (
          record t {
            count = if is_nil (entry_at t.entries r).value then t.count + 1 else t.count;
            entries = set t.entries r (live key value);
          },
          rw gone (set_entry_miss l.run h),
          record {
            valid = record {
              placed =
                  after-IsPlaced strings t.entries t.capacity key r (live key value) v.placed
                    l.landed l.finds l.within live-solid live-own;
              counted = ground (arith, size, v.counted, weight-none (entry_at t.entries r) h);
              loaded = ground arith;
            };
            means =
                view-after strings t.entries t.capacity key r (live key value) v.placed l.landed
                  l.finds l.within live-solid live-own;
          },
        )
  ]

module _ (strings : Ptr → ObjString) (t : Table) (key : Ptr) (value : Value) where
  set_entry_again :
      (t₁ : Table)
      → ((q : Ptr) → view t₁.entries q ≡ view t.entries q)
      → {t' : Table} → Wrote strings (view t₁.entries) key (some value) t'
      → Wrote strings (view t.entries) key (some value) t'
  set_entry_again t₁ same w = record {
    valid = w.valid;
    means = λ q. w.means q ∙ ap (λ (o : Option Value). if key == q then some value else o) (same q);
  }

  -- On a well formed table `tableSet` ends, says whether the key is new, and writes the value at
  -- the key and at no other; the table stays well formed, growth included.
  pub table_set-Wrote :
      IsValid strings t
      → (t' : Table) × (table_set strings t key value ≡ some (is_none (view t.entries key), t'))
        × Wrote strings (view t.entries) key (some value) t'
  unfolding table_set
  table_set-Wrote v =
      let (t₁, grown, v₁, room, same) = make_room-IsValid strings t v in
      let (t', run, w) = set_entry-Wrote strings t₁ key value v₁ room in
      (t', rw (grown, ◌>>=◌, run, same key), set_entry_again t₁ same w)
