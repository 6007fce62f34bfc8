-- ===== src/Table/Resize.antt =====
-- Growth of a table (`adjustCapacity` of src/common/hashtable.cc): every key moves to a new array,
-- and the tombstones are dropped.
use yscript.Prelude.{
  ℕ, zero, suc, ◌+◌, ◌<◌, ◌≡◌, refl, sym, ap, ◌∙◌, inl, inr, List, [], ◌∷◌, Option, none, some,
  arith, ◌==◌, if◌then◌else◌, set, get_or-set_self, get_or-set_ne, replicate, length-replicate,
  Bool-cases, Option-cases,
}
use native.Mathlib.Decide.{ℕ_discrete}
use yscript.Value.{Ptr, Value, ObjString, Entry, Table}
use yscript.Table.{entry_at, empty_entry, live, find_entry, rehash, adjust_capacity}
use yscript.Table.Probe.{IsFree}
use yscript.Table.View.{
  view, weight, used, weight_of_free, HasAt, IsUnique, view-hit, view-miss, IsPlaced, present,
  absent,
}
use yscript.Table.Write.{after-IsPlaced, used-after, view-after}
use yscript.Table.Located.{
  find_entry-Located, count_keys, count_keys-none, count_keys-some, view-none, view-some,
}

-- No tombstones.
abbrev IsClean : List Entry → Type 0
IsClean entries = (i : ℕ) → (entry_at entries i).key ≡ none → IsFree (entry_at entries i)

entry_at-replicate : (n i : ℕ) → entry_at (replicate n empty_entry) i ≡ empty_entry
entry_at-replicate zero i = refl
entry_at-replicate (suc n) zero = refl
entry_at-replicate (suc n) (suc i) = entry_at-replicate n i

used-replicate : (n : ℕ) → used (replicate n empty_entry) ≡ 0
unfolding used weight
used-replicate zero = refl
used-replicate (suc n) = omega (arith, used-replicate n)

nothing_at : (n : ℕ) (q : Ptr) (i : ℕ) → ¬ HasAt (replicate n empty_entry) q i
nothing_at n q i h = cc (h, ap (λ (e : Entry). e.key) (entry_at-replicate n i))

replicate-IsPlaced :
    (strings : Ptr → ObjString) (n : ℕ) → IsPlaced strings (replicate n empty_entry) n
replicate-IsPlaced strings n = record {
  size = length-replicate n empty_entry;
  unique = λ q i j h k. absurd (nothing_at n q i h);
  reach = λ q i h. absurd (nothing_at n q i h);
}

-- `es` are well placed, without tombstones, `count` in number, and mean `f`.
pub record Moved (strings : Ptr → ObjString) (capacity : ℕ) (f : Ptr → Option Value) (count : ℕ)
    (es : List Entry) : Type 0 where
  pub placed : IsPlaced strings es capacity
  pub clean : IsClean es
  pub counted : used es ≡ count
  pub means : (q : Ptr) → view es q ≡ f q

abbrev pub or_content : Option Value → Option Value → Option Value
or_content none b = b
or_content (some a) b = some a

module _ (strings : Ptr → ObjString) (capacity : ℕ) where
  -- One entry moved to a slot of its own.
  move_one :
      (es : List Entry) (count : ℕ) (f : Ptr → Option Value) (k : Ptr) (v : Value)
      → Moved strings capacity f count es
      → count < capacity
      → f k ≡ none
      → (r : ℕ) × (find_entry strings es capacity k ≡ some r)
        × Moved strings capacity
            (λ q. if k == q then some v else f q)
            (count + 1)
            (set es r (live k v))
  move_one es count f k v m room fresh =
      let (r, l) = find_entry-Located strings es capacity k m.placed (omega (arith, m.counted)) in
      let gone : (entry_at es r).key ≡ none = elim l.finds [
        | present h ↦ cc (sym (view-hit es k r m.placed.unique h) ∙ m.means k, fresh)
        | absent n h ↦ n
      ] in
      let solid : ¬ IsFree (live k v) = λ f'. cc (f'.0) in
      let own = λ (q : Ptr) (e : some k ≡ some q). let h : q ≡ k = cc in h in
      let was_free : weight (entry_at es r) ≡ 0 = weight_of_free _ (m.clean r gone) in
      let wrote =
        used-after strings es capacity k r (live k v) m.placed l.landed l.finds l.within solid
          own in
      (
        r,
        l.run,
        record {
          placed =
              after-IsPlaced strings es capacity k r (live k v) m.placed l.landed l.finds l.within
                solid own;
          clean = λ i h. elim (ℕ_discrete r i) [
            | yes e ↦ cc (
              h,
              ap (λ (e : Entry). e.key) (get_or-set_self es r (live k v) empty_entry l.within),
              ap (λ n. (entry_at (set es r (live k v)) n).key) e,
            )
            | no ne ↦
                let same = get_or-set_ne es r i (live k v) empty_entry ne in
                rw same (m.clean i (rw same at h))
          ];
          counted = omega (arith, m.counted, wrote, was_free);
          means = λ q. rw (
            view-after strings es capacity k r (live k v) m.placed l.landed l.finds l.within solid
                own,
            m.means,
          );
        },
      )

  rehash-none :
      (e : Entry) (rest es : List Entry) (count : ℕ)
      → e.key ≡ none
      → rehash strings (e ∷ rest) capacity es count ≡ rehash strings rest capacity es count
  unfolding rehash
  rehash-none e rest es count h = rw h

  rehash-some :
      (e : Entry) (rest es : List Entry) (count : ℕ) {k : Ptr} {r : ℕ}
      → e.key ≡ some k
      → find_entry strings es capacity k ≡ some r
      → rehash strings (e ∷ rest) capacity es count
        ≡ rehash strings rest capacity (set es r (live k e.value)) (count + 1)
  unfolding rehash
  rehash-some e rest es count h run = rw (h, run)

  Moved-congr :
      {es : List Entry} {count : ℕ} {f : Ptr → Option Value} (g : Ptr → Option Value)
      → Moved strings capacity f count es
      → ((q : Ptr) → f q ≡ g q)
      → Moved strings capacity g count es
  Moved-congr g m h = record {
    placed = m.placed;
    clean = m.clean;
    counted = m.counted;
    means = λ q. m.means q ∙ h q;
  }

  -- The loop moves the keys of `rest`, which are none of those that have been moved already.
  rehash-Moved :
      (rest es : List Entry) (count : ℕ) (f : Ptr → Option Value)
      → Moved strings capacity f count es
      → IsUnique rest
      → ((q : Ptr) (i : ℕ) → HasAt rest q i → f q ≡ none)
      → count + count_keys rest < capacity
      → (es' : List Entry) × (c : ℕ) × (rehash strings rest capacity es count ≡ some (es', c))
        × (c ≡ count + count_keys rest)
        × Moved strings capacity (λ q. or_content (view rest q) (f q)) c es'
  rehash-Moved [] es count f m u apart room = (
    es,
    count,
    unfold rehash in refl,
    unfold count_keys in omega arith,
    Moved-congr _ m (λ q. unfold view in refl),
  )
  rehash-Moved (e ∷ rest) es count f m u apart room =
      let u' : IsUnique rest = λ q i j h k. omega (arith, u q (suc i) (suc j) h k) in
      elim (Option-cases e.key) [
        | inl h ↦
            let size = count_keys-none e rest h in
            let (es', c, run, total, m') =
              rehash-Moved rest es count f m u' (λ q i. apart q (suc i)) (omega (arith, size)) in
            (
              es',
              c,
              rehash-none e rest es count h ∙ run,
              omega (arith, size),
              Moved-congr _ m' (λ q. ap (λ o. or_content o (f q)) (sym (view-none e rest q h))),
            )
        | inr (k, h) ↦
            let size = count_keys-some e rest h in
            let (r, found, one) =
              move_one es count f k e.value m (omega (arith, size)) (apart k 0 h) in
            let alone : (i : ℕ) → ¬ HasAt rest k i =
              λ i h'. absurd (omega (arith, u k 0 (suc i) h h')) in
            let next_apart : (q : Ptr) (i : ℕ)
                → HasAt rest q i
                → (if k == q then some e.value else f q) ≡ none =
              λ q i h'. elim (Bool-cases (k == q)) [
                | inl same ↦ let is_k : q ≡ k = ground arith in absurd (alone i (rw is_k at h'))
                | inr differ ↦ rw differ (apart q (suc i) h')
              ] in
            let merged : (q : Ptr)
                → or_content (view rest q) (if k == q then some e.value else f q)
                  ≡ or_content (view (e ∷ rest) q) (f q) =
              λ q. rw (view-some e rest q h) (elim (Bool-cases (k == q)) [
                | inl same ↦
                    let is_k : q ≡ k = ground arith in rw (same, is_k, view-miss rest k alone)
                | inr differ ↦ rw differ
              ]) in
            let (es', c, run, total, m') =
              rehash-Moved rest (set es r (live k e.value)) (count + 1) _ one u' next_apart
                (omega (arith, size)) in
            (
              es',
              c,
              rehash-some e rest es count h found ∙ run,
              omega (arith, size),
              Moved-congr _ m' merged,
            )
      ]

or_content-none : (o : Option Value) → or_content o none ≡ o
or_content-none none = refl
or_content-none (some a) = refl

-- Growth to more slots than there are keys ends, keeps the map, and leaves no tombstone.
pub adjust_capacity-Moved :
    (strings : Ptr → ObjString) (t : Table) (capacity : ℕ)
    → IsUnique t.entries
    → count_keys t.entries < capacity
    → (es : List Entry) × (adjust_capacity strings t capacity
        ≡ some (record { count = count_keys t.entries; capacity = capacity; entries = es }))
      × Moved strings capacity (view t.entries) (count_keys t.entries) es
unfolding adjust_capacity
adjust_capacity-Moved strings t capacity u room =
    let start : Moved strings capacity (λ _. none) 0 (replicate capacity empty_entry) = record {
      placed = replicate-IsPlaced strings capacity;
      clean = λ i h. rw entry_at-replicate (refl, refl);
      counted = used-replicate capacity;
      means = λ q. view-miss _ q (nothing_at capacity q);
    } in
    let (es, c, run, total, m) =
      rehash-Moved strings capacity t.entries _ 0 _ start u (λ q i h. refl) (omega arith) in
    let size : c ≡ count_keys t.entries = omega arith in
    (
      es,
      rw (run, size),
      Moved-congr strings capacity _ (rw size at m) (λ q. or_content-none (view t.entries q)),
    )
