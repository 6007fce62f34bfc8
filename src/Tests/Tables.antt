-- ===== src/Tests/Tables.antt =====
-- The hash table and the strings run on small inputs, and their theorems at concrete ones.
use yscript.Prelude.{
  ℕ, zero, suc, ◌+◌, ◌*◌, ◌≡◌, refl, List, [], ◌∷◌, Bool, Option, none, some, arith, ◌==◌,
  if◌then◌else◌, not, ◌↔◌,
}
use yscript.Prelude.Bytes.{codes}
use yscript.Value.{Ptr, Value, nil, number, ObjString, Entry, Table}
use yscript.Table.{
  init_table, empty_entry, live, tombstone_entry, table_set, table_get, table_delete,
  table_find_string, find_entry, adjust_capacity, table_remove_white, table_add_all, ◌>>=◌,
}
use yscript.Table.Probe.{Landed, find_entry-Landed}
use yscript.Table.View.{IsUnique, view}
use yscript.Table.Map.{IsValid, Wrote, is_none, init_table-IsValid, table_set-Wrote}
use yscript.Table.Lookup.{
  table_get-view, table_delete-Wrote, table_get-table_set, table_get-table_delete,
}
use yscript.Table.Resize.{Moved, adjust_capacity-Moved}
use yscript.Table.AddAll.{or_value, table_add_all-view}
use yscript.Table.White.{table_remove_white-marked}
use yscript.Table.Located.{count_keys}
use yscript.Table.Strings.{Sought, table_find_string-Sought}
use yscript.Memory.{Memory, copy_string}
use yscript.Memory.Interning.{Copied, copy_string-Copied, copy_string-same, no_objects-IsInterned}

-- Keys that all probe from one slot of eight.
abbrev strings : Ptr → ObjString
strings p = record { length = 1; chars = p ∷ []; hash = p * 8 + 3 }

abbrev table_after : Table → Option (Bool × Table) → Table
table_after t none = t
table_after t (some (_, t')) = t'

IsValid-table_after :
    (t : Table) (key : Ptr) (value : Value)
    → IsValid strings t
    → IsValid strings (table_after t (table_set strings t key value))
IsValid-table_after t key value v =
    let (t', run, w) = table_set-Wrote strings t key value v in rw run (w.valid)

abbrev one_key : Table
one_key = table_after init_table (table_set strings init_table 1 (number 10))

abbrev two_keys : Table
two_keys = table_after one_key (table_set strings one_key 2 (number 20))

one_key-IsValid : IsValid strings one_key
one_key-IsValid = IsValid-table_after init_table 1 (number 10) (init_table-IsValid strings)

two_keys-IsValid : IsValid strings two_keys
two_keys-IsValid = IsValid-table_after one_key 2 (number 20) one_key-IsValid

get_second : table_get strings two_keys 2 ≡ some (some (number 20))
unfolding table_get table_set init_table
get_second = refl

get_deleted : (table_delete strings two_keys 1 >>= λ r. table_get strings r.1 1) ≡ some none
unfolding table_get table_set table_delete init_table
get_deleted = refl

table_get-table_set_example :
    (table_set strings two_keys 2 (number 30) >>= λ r. table_get strings r.1 1)
    ≡ (if 2 == 1 then some (some (number 30)) else table_get strings two_keys 1)
table_get-table_set_example = table_get-table_set strings two_keys 2 1 (number 30) two_keys-IsValid

table_get-table_delete_example :
    (table_delete strings two_keys 2 >>= λ r. table_get strings r.1 2)
    ≡ (if 2 == 2 then some none else table_get strings two_keys 2)
table_get-table_delete_example = table_get-table_delete strings two_keys 2 2 two_keys-IsValid

table_get-view_example : table_get strings two_keys 2 ≡ some (view two_keys.entries 2)
table_get-view_example = table_get-view strings two_keys 2 two_keys-IsValid

table_set-Wrote_example :
    (t' : Table) × (table_set strings two_keys 3 nil ≡ some (is_none (view two_keys.entries 3), t'))
    × Wrote strings (view two_keys.entries) 3 (some nil) t'
table_set-Wrote_example = table_set-Wrote strings two_keys 3 nil two_keys-IsValid

table_delete-Wrote_example :
    (t' : Table) × (table_delete strings two_keys 1
      ≡ some (not (is_none (view two_keys.entries 1)), t'))
    × Wrote strings (view two_keys.entries) 1 none t'
table_delete-Wrote_example = table_delete-Wrote strings two_keys 1 two_keys-IsValid

table_find_string-Sought_example :
    (r : Option Ptr) × (table_find_string strings two_keys (2 ∷ []) 1 19 ≡ some r)
    × Sought strings two_keys (2 ∷ []) 1 19 r
table_find_string-Sought_example =
    table_find_string-Sought strings two_keys (2 ∷ []) 1 19 two_keys-IsValid

abbrev full_table : Table
full_table = record { count = 2; capacity = 2; entries = live 1 (number 10) ∷ live 5 nil ∷ [] }

full_table-IsUnique : IsUnique full_table.entries
full_table-IsUnique q zero zero h k = refl
full_table-IsUnique q zero (suc zero) h k = absurd (cc (h, k))
full_table-IsUnique q zero (suc (suc j)) h k = absurd (cc k)
full_table-IsUnique q (suc zero) zero h k = absurd (cc (h, k))
full_table-IsUnique q (suc zero) (suc zero) h k = refl
full_table-IsUnique q (suc zero) (suc (suc j)) h k = absurd (cc k)
full_table-IsUnique q (suc (suc i)) j h k = absurd (cc h)

adjust_capacity-Moved_example :
    (es : List Entry) × (adjust_capacity strings full_table 8
      ≡ some (record { count = count_keys full_table.entries; capacity = 8; entries = es }))
    × Moved strings 8 (view full_table.entries) (count_keys full_table.entries) es
unfolding count_keys
adjust_capacity-Moved_example =
    adjust_capacity-Moved strings full_table 8 full_table-IsUnique (omega arith)

abbrev some_entries : List Entry
some_entries = live 9 nil ∷ tombstone_entry ∷ empty_entry ∷ live 1 nil ∷ []

find_entry-Landed_example :
    (r : ℕ) × (find_entry strings some_entries 4 7 ≡ some r) × Landed some_entries 4 59 7 r
find_entry-Landed_example = find_entry-Landed strings some_entries 4 7 2 (omega arith) (refl, refl)

abbrev no_objects : Memory
no_objects = record { objects = []; strings = init_table }

copy_string-Copied_example :
    (p : Ptr) × (m' : Memory) × (copy_string (codes "name") no_objects ≡ some (p, m'))
    × Copied no_objects (codes "name") p m'
copy_string-Copied_example = copy_string-Copied no_objects (codes "name") no_objects-IsInterned

copy_string-same_example :
    (p q : Ptr) × (m₁ m₂ : Memory) × (copy_string (codes "name") no_objects ≡ some (p, m₁))
    × (copy_string (codes "init") m₁ ≡ some (q, m₂))
    × ((p ≡ q) ↔ (codes "name" ≡ codes "init"))
copy_string-same_example =
    copy_string-same no_objects (codes "name") (codes "init") no_objects-IsInterned

table_remove_white-marked_example :
    (t' : Table) × (table_remove_white strings (λ p. p == 2) two_keys ≡ some t')
    × IsValid strings t'
    × ((q : Ptr) → view t'.entries q ≡ (if q == 2 then view two_keys.entries q else none))
table_remove_white-marked_example =
    table_remove_white-marked strings (λ p. p == 2) two_keys two_keys-IsValid

table_add_all-view_example :
    (to' : Table) × (table_add_all strings one_key two_keys ≡ some to')
    × IsValid strings to'
    × ((q : Ptr) → view to'.entries q ≡ or_value (view one_key.entries q) (view two_keys.entries q))
table_add_all-view_example =
    table_add_all-view strings one_key two_keys one_key-IsValid two_keys-IsValid
