-- ===== src/Table/Located.antt =====
-- Where `findEntry` of src/common/hashtable.cc ends in a well placed table, and the number of its keys.
use yscript.Prelude.{
  ℕ, ◌+◌, ◌≤◌, ◌<◌, ◌≡◌, List, [], ◌∷◌, none, some, arith, ◌==◌, if◌then◌else◌, length,
}
use native.Mathlib.Nat.{mod-lt}
use yscript.Value.{Ptr, ObjString, Entry}
use yscript.Table.{find_entry}
use yscript.Table.Probe.{hash_of, Landed, find_entry-Landed}
use yscript.Table.View.{view, weight, used, IsPlaced, Finds, free_slot, Outcome-Finds}

-- Where `findEntry` ends in well placed entries with a free slot.
pub record Located (strings : Ptr → ObjString) (entries : List Entry) (capacity : ℕ) (key : Ptr)
    (r : ℕ) : Type 0 where
  pub run : find_entry strings entries capacity key ≡ some r
  pub landed : Landed entries capacity (hash_of strings key) key r
  pub finds : Finds entries key r
  pub within : r < length entries

pub find_entry-Located :
    (strings : Ptr → ObjString) (entries : List Entry) (capacity : ℕ) (key : Ptr)
    → IsPlaced strings entries capacity
    → used entries < capacity
    → (r : ℕ) × Located strings entries capacity key r
find_entry-Located strings entries capacity key placed room =
    let (i, lt, free) = free_slot entries (omega (arith, placed.size)) in
    let (r, run, landed) =
      find_entry-Landed strings entries capacity key i (omega (arith, placed.size)) free in
    (
      r,
      record {
        run = run;
        landed = landed;
        finds = Outcome-Finds strings entries capacity key placed landed.outcome;
        within = omega (
          arith,
          landed.place,
          placed.size,
          mod-lt (hash_of strings key + landed.distance) {m = capacity} (omega arith),
        );
      },
    )

-- Entries with a key.
unfoldable pub count_keys : List Entry → ℕ
count_keys [] = 0
count_keys (e ∷ es) = elim e.key [ none ↦ 0 | some _ ↦ 1 ] + count_keys es

pub count_keys-le_used : (es : List Entry) → count_keys es ≤ used es
unfolding count_keys used weight
count_keys-le_used [] = omega arith
count_keys-le_used (e ∷ es) = ground (arith, count_keys-le_used es)

pub count_keys-none :
    (e : Entry) (es : List Entry) → e.key ≡ none → count_keys (e ∷ es) ≡ count_keys es
unfolding count_keys
count_keys-none e es h = rw h (omega arith)

pub count_keys-some :
    (e : Entry) (es : List Entry) {k : Ptr}
    → e.key ≡ some k
    → count_keys (e ∷ es) ≡ count_keys es + 1
unfolding count_keys
count_keys-some e es h = rw h (omega arith)

pub view-none : (e : Entry) (es : List Entry) (q : Ptr) → e.key ≡ none → view (e ∷ es) q ≡ view es q
unfolding view
view-none e es q h = ground arith

pub view-some :
    (e : Entry) (es : List Entry) (q : Ptr) {k : Ptr}
    → e.key ≡ some k
    → view (e ∷ es) q ≡ (if k == q then some e.value else view es q)
unfolding view
view-some e es q h = ground arith
