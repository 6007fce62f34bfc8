-- ===== src/Table.antt =====
-- The hash table (src/common/hashtable.h and src/common/hashtable.cc): open addressing with
-- linear probing and tombstones. The keys are strings in memory, compared by their addresses.
-- `none` as a result of an operation says that a probe made more rounds than there are slots, and
-- so would never end.
pub mod Probe
pub mod View
pub mod Write
pub mod Resize
pub mod Map
pub mod Lookup
pub mod Strings
pub mod Located
pub mod White
pub mod AddAll
use yscript.Prelude.{
  ℕ, zero, suc, ◌+◌, ◌*◌, ◌%◌, List, [], ◌∷◌, Bool, true, false, not, ◌&&◌, Option, none, some,
  ◌==◌, ltb, if◌then◌else◌, get_or, set, take, replicate,
}
use yscript.Prelude.Bytes.{Bytes, bytes_eq}
use yscript.Value.{Ptr, Value, bool, nil, is_nil, ObjString, Entry, Table, grow_capacity}

infixl 5 ◌>>=◌
abbrev pub ◌>>=◌ {ℓ κ} : {A : Type ℓ} {B : Type κ} → Option A → (A → Option B) → Option B
none >>= f = none
some a >>= f = f a

abbrev pub empty_entry : Entry
empty_entry = record { key = none; value = nil }

abbrev pub live : Ptr → Value → Entry
live key value = record { key = some key; value = value }

abbrev pub tombstone_entry : Entry
tombstone_entry = record { key = none; value = bool true }

abbrev pub entry_at : List Entry → ℕ → Entry
entry_at entries i = get_or entries i empty_entry

unfoldable pub init_table : Table
init_table = record { count = 0; capacity = 0; entries = [] }

abbrev pub or_index : Option ℕ → ℕ → ℕ
or_index none i = i
or_index (some t) i = t

-- One round of the loop of `findEntry` at the entry that it reads. `next` is the next round.
abbrev pub probe_step : (key : Ptr) → ℕ → Option ℕ → (Option ℕ → Option ℕ) → Entry → Option ℕ
probe_step key index tombstone next entry = elim entry.key [
  | none ↦
      if is_nil entry.value
      then some (or_index tombstone index)
      else next (some (or_index tombstone index))
  | some k ↦ if k == key then some index else next tombstone
]

-- The loop of `findEntry`, with the rounds that it may still make; it answers an index.
unfoldable pub find_loop : ℕ → List Entry → ℕ → Ptr → ℕ → Option ℕ → Option ℕ
find_loop zero entries capacity key index tombstone = none
find_loop (suc f) entries capacity key index tombstone =
    probe_step key index tombstone
      (λ t. find_loop f entries capacity key ((index + 1) % capacity) t) (entry_at entries index)

-- The memory that the keys point to.
module _ (strings : Ptr → ObjString) where
  unfoldable pub find_entry : List Entry → ℕ → Ptr → Option ℕ
  unfolding find_loop
  find_entry entries capacity key =
      find_loop capacity entries capacity key ((strings key).hash % capacity) none

  -- `some none` is the result `false`, and `some (some v)` is `true` with `v` in `*value`.
  unfoldable pub table_get : Table → Ptr → Option (Option Value)
  unfolding find_entry
  table_get table key = if table.count == 0 then some none else do
    i ← find_entry table.entries table.capacity key
    elim (entry_at table.entries i).key [
      | none ↦ some none
      | some _ ↦ some (some (entry_at table.entries i).value)
    ]

  -- The second loop of `adjustCapacity`, over the old entries: the new entries and their count.
  unfoldable pub rehash : List Entry → ℕ → List Entry → ℕ → Option (List Entry × ℕ)
  unfolding find_entry
  rehash [] capacity entries count = some (entries, count)
  rehash (e ∷ rest) capacity entries count = elim e.key [
    | none ↦ rehash rest capacity entries count
    | some k ↦ do
      dest ← find_entry entries capacity k
      rehash rest capacity (set entries dest (live k e.value)) (count + 1)
  ]

  unfoldable pub adjust_capacity : Table → ℕ → Option Table
  unfolding rehash
  adjust_capacity table capacity = do
    (entries, count) ← rehash table.entries capacity (replicate capacity empty_entry) 0
    some (record { count = count; capacity = capacity; entries = entries })

  -- `count + 1 > capacity * 0.75`; both sides are exact as doubles.
  abbrev pub is_crowded : Table → Bool
  is_crowded table = ltb (table.capacity * 3) ((table.count + 1) * 4)

  unfoldable pub make_room : Table → Option Table
  unfolding adjust_capacity
  make_room table =
      if is_crowded table then adjust_capacity table (grow_capacity table.capacity) else some table

  -- The rest of `tableSet`, behind the growth: whether the key is new, and the table.
  unfoldable pub set_entry : Table → Ptr → Value → Option (Bool × Table)
  unfolding find_entry
  set_entry table key value = do
    i ← find_entry table.entries table.capacity key
    let entry = entry_at table.entries i
    let is_new : Bool = elim entry.key [ none ↦ true | some _ ↦ false ]
    some (
      is_new,
      record table {
        count = if is_new && is_nil entry.value then table.count + 1 else table.count;
        entries = set table.entries i (live key value);
      },
    )

  unfoldable pub table_set : Table → Ptr → Value → Option (Bool × Table)
  unfolding make_room set_entry
  table_set table key value = do roomy ← make_room table; set_entry roomy key value

  unfoldable pub table_delete : Table → Ptr → Option (Bool × Table)
  unfolding find_entry
  table_delete table key = if table.count == 0 then some (false, table) else do
    i ← find_entry table.entries table.capacity key
    elim (entry_at table.entries i).key [
      | none ↦ some (false, table)
      | some _ ↦ some (true, record table { entries = set table.entries i tombstone_entry })
    ]

  -- The loop of `tableAddAll` over the entries of `from`.
  unfoldable pub add_entries : List Entry → Table → Option Table
  unfolding table_set
  add_entries [] to = some to
  add_entries (e ∷ rest) to = elim e.key [
    | none ↦ add_entries rest to
    | some k ↦ do (_, to') ← table_set to k e.value; add_entries rest to'
  ]

  unfoldable pub table_add_all : Table → Table → Option Table
  unfolding add_entries
  table_add_all from to = add_entries from.entries to

  -- `length`, `hash` and the bytes of the key against those of the text that is sought.
  abbrev pub is_text : Bytes → ℕ → ℕ → Ptr → Bool
  is_text chars length hash k =
      ((strings k).length == length)
      && ((strings k).hash == hash)
      && bytes_eq (take length (strings k).chars) (take length chars)

  abbrev pub text_step : Bytes → ℕ → ℕ → Option (Option Ptr) → Entry → Option (Option Ptr)
  text_step chars length hash next entry = elim entry.key [
    | none ↦ if is_nil entry.value then some none else next
    | some k ↦ if is_text chars length hash k then some (some k) else next
  ]

  unfoldable pub find_string_loop : ℕ → Table → Bytes → ℕ → ℕ → ℕ → Option (Option Ptr)
  find_string_loop zero table chars length hash index = none
  find_string_loop (suc f) table chars length hash index =
      let next = find_string_loop f table chars length hash ((index + 1) % table.capacity) in
      text_step chars length hash next (entry_at table.entries index)

  unfoldable pub table_find_string : Table → Bytes → ℕ → ℕ → Option (Option Ptr)
  unfolding find_string_loop
  table_find_string table chars length hash =
      if table.count == 0
      then some none
      else find_string_loop table.capacity table chars length hash (hash % table.capacity)

  -- The loop of `tableRemoveWhite`, with the entries that are left from index `i` on.
  unfoldable pub remove_white_loop : (marked : Ptr → Bool) → ℕ → ℕ → Table → Option Table
  unfolding table_delete
  remove_white_loop marked zero i table = some table
  remove_white_loop marked (suc n) i table =
      let next = remove_white_loop marked n (i + 1) in
      elim (entry_at table.entries i).key [
        | none ↦ next table
        | some k ↦
            if marked k then next table else (do (_, table') ← table_delete table k; next table')
      ]

  unfoldable pub table_remove_white : (marked : Ptr → Bool) → Table → Option Table
  unfolding remove_white_loop
  table_remove_white marked table = remove_white_loop marked table.capacity 0 table
