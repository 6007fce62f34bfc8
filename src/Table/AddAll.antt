-- ===== src/Table/AddAll.antt =====
-- `tableAddAll` of src/common/hashtable.cc against the maps of the two tables.
use yscript.Prelude.{
  suc, ◌≡◌, refl, sym, ap, ◌∙◌, inl, inr, List, [], ◌∷◌, Bool, Option, none, some, arith, ◌==◌,
  if◌then◌else◌, Bool-cases, Option-cases,
}
use yscript.Value.{Ptr, Value, ObjString, Entry, Table}
use yscript.Table.{◌>>=◌, table_set, add_entries, table_add_all}
use yscript.Table.View.{view, IsUnique, view-miss}
use yscript.Table.Map.{IsValid, table_set-Wrote}

-- The value of the first map, or else that of the second.
abbrev pub or_value : Option Value → Option Value → Option Value
or_value none other = other
or_value (some v) other = some v

IsUnique-tail : (e : Entry) (es : List Entry) → IsUnique (e ∷ es) → IsUnique es
IsUnique-tail e es u q i j h k = omega (arith, u q (suc i) (suc j) h k)

module _ (strings : Ptr → ObjString) where
  add_none :
      (e : Entry) (es : List Entry) (to : Table)
      → e.key ≡ none
      → add_entries strings (e ∷ es) to ≡ add_entries strings es to
  unfolding add_entries
  add_none e es to free = rw (add_entries, free)

  add_some :
      (e : Entry) (es : List Entry) (to to' : Table) {k : Ptr} {b : Bool}
      → e.key ≡ some k
      → table_set strings to k e.value ≡ some (b, to')
      → add_entries strings (e ∷ es) to ≡ add_entries strings es to'
  unfolding add_entries
  add_some e es to to' used run = rw (add_entries, used, run, ◌>>=◌)

  module _ (e : Entry) (es : List Entry) (q : Ptr) where
    view_free : e.key ≡ none → view (e ∷ es) q ≡ view es q
    unfolding view
    view_free free = rw free

    view_used :
        {k : Ptr} → e.key ≡ some k → view (e ∷ es) q ≡ (if k == q then some e.value else view es q)
    unfolding view
    view_used used = rw used

  add_entries-view :
      (es : List Entry) (to : Table)
      → IsUnique es
      → IsValid strings to
      → (to' : Table) × (add_entries strings es to ≡ some to')
        × IsValid strings to'
        × ((q : Ptr) → view to'.entries q ≡ or_value (view es q) (view to.entries q))
  unfolding add_entries view
  add_entries-view [] to u v = (to, refl, v, λ q. refl)
  add_entries-view (e ∷ es) to u v = elim (Option-cases e.key) [
    | inl free ↦
        let (to', run, v', means) = add_entries-view es to (IsUnique-tail e es u) v in
        (
          to',
          add_none e es to free ∙ run,
          v',
          λ q. means q ∙ ap (λ o. or_value o (view to.entries q)) (sym (view_free e es q free)),
        )
    | inr (k, used) ↦
        let (to₁, set, w) = table_set-Wrote strings to k e.value v in
        let (to', run, v', means) = add_entries-view es to₁ (IsUnique-tail e es u) w.valid in
        (
          to',
          add_some e es to to₁ used set ∙ run,
          v',
          λ q. means q ∙ ap (or_value (view es q)) (w.means q) ∙ elim (Bool-cases (k == q)) [
            | inr other ↦ rw (view_used e es q used, other)
            | inl same ↦
                let is_k : k ≡ q = ground arith in
                let alone : view es q ≡ none =
                  view-miss es q
                    (λ i h. absurd (omega (arith, u q 0 (suc i) (used ∙ ap some is_k) h))) in
                rw (view_used e es q used, same, alone)
          ],
        )
  ]

  -- On well formed tables `tableAddAll` ends with a well formed table: at the keys of the first it has the values of the first,
  -- and at the others what the second had.
  pub table_add_all-view :
      (from to : Table)
      → IsValid strings from
      → IsValid strings to
      → (to' : Table) × (table_add_all strings from to ≡ some to')
        × IsValid strings to'
        × ((q : Ptr) → view to'.entries q ≡ or_value (view from.entries q) (view to.entries q))
  unfolding table_add_all
  table_add_all-view from to vf vt = add_entries-view from.entries to vf.placed.unique vt
