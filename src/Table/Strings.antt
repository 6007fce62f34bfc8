-- ===== src/Table/Strings.antt =====
-- `tableFindString` of src/common/hashtable.cc: it ends, and finds the key with the text if there
-- is one.
use yscript.Prelude.{
  ℕ, zero, suc, ◌+◌, ◌%◌, ◌<◌, ◌≡◌, ◌∙◌, inl, inr, true, false, Option, none, some, arith, ◌==◌,
  length, Bool-cases, Option-cases,
}
use native.Mathlib.Decide.{ℕ_discrete, dec_lt}
use native.Mathlib.Nat.{zero-add}
use yscript.Prelude.Bytes.{Bytes}
use yscript.Value.{Ptr, is_nil, ObjString, Entry, Table}
use yscript.Table.{entry_at, is_text, text_step, find_string_loop, table_find_string}
use yscript.Table.Probe.{
  probe, probe-zero, probe-suc, distance_to, distance_to-lt, probe-distance_to, IsFree, is_nil→eq,
}
use yscript.Table.View.{used, HasAt, free_slot, IsPlaced}
use yscript.Table.Map.{IsValid}
use yscript.Table.Lookup.{used-pos}

-- What is sought, and what a search answers: a key with the text, or that no key has it.
pub data Sought (strings : Ptr → ObjString) (t : Table) (chars : Bytes) (length hash : ℕ)
    : Option Ptr → Type 0 where
  known :
      {k : Ptr} (i : ℕ)
      → HasAt t.entries k i
      → is_text strings chars length hash k ≡ true
      → Sought strings t chars length hash (some k)
  unknown :
      ((q : Ptr) (i : ℕ) → HasAt t.entries q i → is_text strings chars length hash q ≡ false)
      → Sought strings t chars length hash none

module _ (strings : Ptr → ObjString) (chars : Bytes) (len hash : ℕ) where
  is_text-hash : (k : Ptr) → is_text strings chars len hash k ≡ true → (strings k).hash ≡ hash
  is_text-hash k h = ground arith

  -- One round of the loop, by the entry that it reads.
  module _ (next : Option (Option Ptr)) (e : Entry) where
    step_text :
        {k : Ptr}
        → e.key ≡ some k
        → is_text strings chars len hash k ≡ true
        → text_step strings chars len hash next e ≡ some (some k)
    step_text h same = rw (h, same)

    step_past :
        {k : Ptr}
        → e.key ≡ some k
        → is_text strings chars len hash k ≡ false
        → text_step strings chars len hash next e ≡ next
    step_past h differ = rw (h, differ)

    step_end :
        e.key ≡ none → is_nil e.value ≡ true → text_step strings chars len hash next e ≡ some none
    step_end h blank = rw (h, blank)

    step_grave :
        e.key ≡ none → is_nil e.value ≡ false → text_step strings chars len hash next e ≡ next
    step_grave h grave = rw (h, grave)

  module _ (t : Table) (placed : IsPlaced strings t.entries t.capacity) where
    abbrev at : ℕ → Entry
    at j = entry_at t.entries (probe t.capacity hash j)

    -- The first `j` slots of the probe do not have the text.
    abbrev Passed : ℕ → Type 0
    Passed j =
        (l : ℕ) → l < j → (q : Ptr) → (at l).key ≡ some q → is_text strings chars len hash q ≡ false

    Passed-suc :
        (j : ℕ)
        → Passed j
        → ((q : Ptr) → (at j).key ≡ some q → is_text strings chars len hash q ≡ false)
        → Passed (suc j)
    Passed-suc j p here l lt = elim (ℕ_discrete l j) [
      | yes e ↦ rw e here
      | no d ↦ p l (omega arith)
    ]

    -- A path without the text up to a free slot leaves no place for it.
    none_beyond :
        (n : ℕ)
        → Passed n
        → IsFree (at n)
        → (q : Ptr) (i : ℕ) → HasAt t.entries q i
        → is_text strings chars len hash q ≡ false
    none_beyond n p free q i h = elim (Bool-cases (is_text strings chars len hash q)) [
      | inr differ ↦ differ
      | inl same ↦
          let (m, e, path) = placed.reach q i h in
          let eh = is_text-hash q same in
          let h' = rw (e, eh) at h in
          elim (dec_lt m n) [
            | yes lt ↦ p m lt q h'
            | no ge ↦ elim (dec_lt n m) [
              | yes gt ↦ absurd (path n gt (rw eh free))
              | no le ↦ let e' : m ≡ n = omega arith in absurd (cc (free.0, rw e' at h'))
            ]
          ]
    ]

    abbrev Ends : ℕ → ℕ → Type 0
    Ends f j =
        (r : Option Ptr) × (find_string_loop strings f t chars len hash (probe t.capacity hash j)
          ≡ some r)
        × Sought strings t chars len hash r

    go_on :
        (f d j : ℕ)
        → ((c : ℕ) → c < f → IsFree (at (suc j + c)) → Ends f (suc j))
        → d < suc f
        → IsFree (at (j + d))
        → ¬ IsFree (at j)
        → (r : Option Ptr) × (find_string_loop strings f t chars len hash
              ((probe t.capacity hash j + 1) % t.capacity)
            ≡ some r)
          × Sought strings t chars len hash r
    go_on f zero j rest h free nf = absurd (nf (let e : j + 0 ≡ j = omega arith in rw e at free))
    go_on f (suc d) j rest h free nf =
        let e : j + suc d ≡ suc j + d = omega arith in
        rw probe-suc (rest d (omega arith) (rw e at free))

    find_string_loop-Sought : (f d j : ℕ) → d < f → IsFree (at (j + d)) → Passed j → Ends f j
    unfolding find_string_loop
    find_string_loop-Sought zero d j h free p = absurd (omega arith)
    find_string_loop-Sought (suc f) d j h free p =
        let next =
          find_string_loop strings f t chars len hash
            ((probe t.capacity hash j + 1) % t.capacity) in
        elim (Option-cases (at j).key) [
          | inr (k, e) ↦ elim (Bool-cases (is_text strings chars len hash k)) [
            | inl same ↦
                (some k, step_text next (at j) e same, known (probe t.capacity hash j) e same)
            | inr differ ↦
                let (r, run, s) =
                  go_on f d j
                    (λ c lt free'.
                      find_string_loop-Sought f c (suc j) lt free'
                        (Passed-suc j p (λ q e'. cc (e, e', differ))))
                    h free (λ free'. cc (e, free'.0)) in
                (r, step_past next (at j) e differ ∙ run, s)
          ]
          | inl e ↦ elim (Bool-cases (is_nil (at j).value)) [
            | inl blank ↦ (
              none,
              step_end next (at j) e blank,
              unknown (none_beyond j p (e, is_nil→eq _ blank)),
            )
            | inr grave ↦
                let (r, run, s) =
                  go_on f d j
                    (λ c lt free'.
                      find_string_loop-Sought f c (suc j) lt free'
                        (Passed-suc j p (λ q e'. absurd (cc (e, e')))))
                    h free (λ free'. ground arith) in
                (r, step_grave next (at j) e grave ∙ run, s)
          ]
        ]

-- On a well formed table `tableFindString` ends, with a key that has the length, the hash and the
-- bytes, or with null where no key of the table has them.
pub table_find_string-Sought :
    (strings : Ptr → ObjString) (t : Table) (chars : Bytes) (len hash : ℕ)
    → IsValid strings t
    → (r : Option Ptr) × (table_find_string strings t chars len hash ≡ some r)
      × Sought strings t chars len hash r
unfolding table_find_string
table_find_string-Sought strings t chars len hash v = elim (Bool-cases (t.count == 0)) [
  | inl e ↦
      let empty : used t.entries ≡ 0 = ground (arith, v.counted) in
      (none, rw e, unknown (λ q i h. absurd (omega (arith, used-pos t.entries q i h))))
  | inr n ↦
      let room : used t.entries < length t.entries =
        ground (arith, v.counted, v.loaded, v.placed.size) in
      let (i, within, free) = free_slot t.entries room in
      let within' : i < t.capacity = omega (arith, v.placed.size) in
      let (r, run, s) =
        find_string_loop-Sought strings chars len hash t v.placed t.capacity
          (distance_to t.capacity hash i) 0 (distance_to-lt t.capacity hash i within')
          (rw
            (zero-add (distance_to t.capacity hash i), probe-distance_to t.capacity hash i within')
            free)
          (λ l lt. elim lt [ ]) in
      (r, rw (n, ← probe-zero t.capacity hash) run, s)
]
