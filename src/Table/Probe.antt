-- ===== src/Table/Probe.antt =====
-- Probing (`findEntry` of src/common/hashtable.cc): it ends while a slot is free, and where.
use yscript.Prelude.{
  ℕ, zero, suc, ◌+◌, ◌-◌, ◌%◌, ◌<◌, ◌≡◌, refl, ap, ◌∙◌, ◌≢◌, inl, inr, List, true, false, Option,
  none, some, arith, ◌==◌, Bool-cases, Option-cases,
}
use native.Mathlib.Decide.{ℕ_discrete}
use native.Mathlib.Nat.{zero-add, mod-lt, mod-eq_of_lt, mod-add-mod, add-mod-mod, add-mod_right}
use yscript.Value.{Ptr, Value, nil, is_nil, ObjString, Entry}
use yscript.Table.{entry_at, or_index, probe_step, find_loop, find_entry}

-- The slot that round `j` of a probe reads.
abbrev pub probe : ℕ → ℕ → ℕ → ℕ
probe capacity hash j = (hash + j) % capacity

-- Every slot lies on the path of every probe.
pub distance_to : ℕ → ℕ → ℕ → ℕ
distance_to capacity hash i = (i + capacity - hash % capacity) % capacity

pub distance_to-lt : (capacity hash i : ℕ) → i < capacity → distance_to capacity hash i < capacity
unfolding distance_to
distance_to-lt capacity hash i h = mod-lt _ (omega arith)

pub probe-distance_to :
    (capacity hash i : ℕ) → i < capacity → probe capacity hash (distance_to capacity hash i) ≡ i
unfolding distance_to
probe-distance_to capacity hash i h =
    let within = mod-lt hash {m = capacity} (omega arith) in
    rw (add-mod-mod, ← mod-add-mod hash capacity (i + capacity - hash % capacity))
      (ap (λ n. n % capacity) {y = i + capacity} (omega arith)
        ∙ (add-mod_right i capacity ∙ mod-eq_of_lt h))

pub probe-zero : (capacity hash : ℕ) → probe capacity hash 0 ≡ hash % capacity
probe-zero capacity hash = ap (λ n. n % capacity) (omega arith)

pub probe-suc :
    (capacity hash j : ℕ) → (probe capacity hash j + 1) % capacity ≡ probe capacity hash (suc j)
probe-suc capacity hash j =
    rw (mod-add-mod (hash + j) capacity 1) (ap (λ n. n % capacity) (omega arith))

-- An entry that has never held a key.
abbrev pub IsFree : Entry → Type 0
IsFree e = (e.key ≡ none) × (e.value ≡ nil)

pub is_nil→eq : (v : Value) → is_nil v ≡ true → v ≡ nil
is_nil→eq nil h = refl
is_nil→eq _ h = cc

-- The first `j` slots of the probe have been passed over: none is free, none has the key.
record Passed (entries : List Entry) (capacity hash : ℕ) (key : Ptr) (j : ℕ) : Type 0 where
  used : (l : ℕ) → l < j → ¬ IsFree (entry_at entries (probe capacity hash l))
  other : (l : ℕ) → l < j → (entry_at entries (probe capacity hash l)).key ≢ some key

-- Where a probe ends: at a slot of its path that has the key, or at one without a key (the first
-- tombstone, or the free slot), and then the path leads over no slot with the key to a free one.
pub data Outcome (entries : List Entry) (capacity hash : ℕ) (key : Ptr) (r : ℕ) : Type 0 where
  found : (entry_at entries r).key ≡ some key → Outcome entries capacity hash key r
  missing :
      (n : ℕ)
      → (entry_at entries r).key ≡ none
      → ((l : ℕ) → l < n → (entry_at entries (probe capacity hash l)).key ≢ some key)
      → IsFree (entry_at entries (probe capacity hash n))
      → Outcome entries capacity hash key r

pub record Landed (entries : List Entry) (capacity hash : ℕ) (key : Ptr) (r : ℕ) : Type 0 where
  pub distance : ℕ
  pub place : r ≡ probe capacity hash distance
  pub path : (l : ℕ) → l < distance → ¬ IsFree (entry_at entries (probe capacity hash l))
  pub outcome : Outcome entries capacity hash key r

-- One round of the loop, by the entry that it reads.
module _ (key : Ptr) (index : ℕ) (t : Option ℕ) (next : Option ℕ → Option ℕ) (e : Entry) where
  step_found :
      {k : Ptr} → e.key ≡ some k → (k == key) ≡ true → probe_step key index t next e ≡ some index
  step_found h same = rw (h, same)

  step_other :
      {k : Ptr} → e.key ≡ some k → (k == key) ≡ false → probe_step key index t next e ≡ next t
  step_other h differ = rw (h, differ)

  step_free :
      e.key ≡ none → is_nil e.value ≡ true → probe_step key index t next e ≡ some (or_index t index)
  step_free h blank = rw (h, blank)

  step_tombstone :
      e.key ≡ none
      → is_nil e.value ≡ false
      → probe_step key index t next e ≡ next (some (or_index t index))
  step_tombstone h grave = rw (h, grave)

module _ (entries : List Entry) (capacity hash : ℕ) (key : Ptr) where
  abbrev at : ℕ → Entry
  at j = entry_at entries (probe capacity hash j)

  -- The remembered tombstone, if any, is a slot of the path that has been passed.
  abbrev Remembers : ℕ → Option ℕ → Type 0
  Remembers j none = Unit
  Remembers j (some t) = (m : ℕ) × (t ≡ probe capacity hash m) × (m < j) × ((at m).key ≡ none)

  Passed-suc :
      (j : ℕ)
      → Passed entries capacity hash key j
      → ¬ IsFree (at j)
      → (at j).key ≢ some key
      → Passed entries capacity hash key (suc j)
  Passed-suc j p nf ne = record {
    used = λ l h. elim (ℕ_discrete l j) [ yes e ↦ rw e nf | no d ↦ p.used l (omega arith) ];
    other = λ l h. elim (ℕ_discrete l j) [ yes e ↦ rw e ne | no d ↦ p.other l (omega arith) ];
  }

  Remembers-suc : (j : ℕ) (t : Option ℕ) → Remembers j t → Remembers (suc j) t
  Remembers-suc j none r = tt
  Remembers-suc j (some t) (m, e, h, k) = (m, e, omega arith, k)

  -- The tombstone after one more slot without a key.
  Remembers-first :
      (j : ℕ) (t : Option ℕ)
      → Remembers j t
      → (at j).key ≡ none
      → Remembers (suc j) (some (or_index t (probe capacity hash j)))
  Remembers-first j none r k = (j, refl, omega arith, k)
  Remembers-first j (some t) (m, e, h, k') k = (m, e, omega arith, k')

  free-Landed :
      (j : ℕ) (t : Option ℕ)
      → Passed entries capacity hash key j
      → Remembers j t
      → IsFree (at j)
      → Landed entries capacity hash key (or_index t (probe capacity hash j))
  free-Landed j none p r f = record {
    distance = j;
    place = refl;
    path = p.used;
    outcome = missing j f.0 p.other f;
  }
  free-Landed j (some t) p (m, e, h, k) f = record {
    distance = m;
    place = e;
    path = λ l lt. p.used l (omega arith);
    outcome = missing j (rw e k) p.other f;
  }

  -- The loop ends within `f` rounds, from round `j` on.
  abbrev Ends : ℕ → ℕ → Option ℕ → Type 0
  Ends f j t =
      (r : ℕ) × (find_loop f entries capacity key (probe capacity hash j) t ≡ some r)
      × Landed entries capacity hash key r

  -- A round that passes over the slot of round `j` leaves the rest to the loop at round `j + 1`.
  go_on :
      (f d j : ℕ) (u : Option ℕ)
      → ((c : ℕ) → c < f → IsFree (at (suc j + c)) → Ends f (suc j) u)
      → d < suc f
      → IsFree (at (j + d))
      → ¬ IsFree (at j)
      → (r : ℕ) × (find_loop f entries capacity key ((probe capacity hash j + 1) % capacity) u
          ≡ some r)
        × Landed entries capacity hash key r
  go_on f zero j u rest h free nf = absurd (nf (let e : j + 0 ≡ j = omega arith in rw e at free))
  go_on f (suc d) j u rest h free nf =
      let e : j + suc d ≡ suc j + d = omega arith in
      rw probe-suc (rest d (omega arith) (rw e at free))

  -- A loop at round `j`, with a free slot `d` rounds on and more rounds than that, ends.
  find_loop-Landed :
      (f d j : ℕ) (t : Option ℕ)
      → d < f
      → IsFree (at (j + d))
      → Passed entries capacity hash key j
      → Remembers j t
      → Ends f j t
  unfolding find_loop
  find_loop-Landed zero d j t h free p m = absurd (omega arith)
  find_loop-Landed (suc f) d j t h free p m =
      let index = probe capacity hash j in
      let next = λ (u : Option ℕ). find_loop f entries capacity key ((index + 1) % capacity) u in
      elim (Option-cases (at j).key) [
        | inr (k, e) ↦
            let nf : ¬ IsFree (at j) = λ free'. cc (e, free'.0) in
            elim (Bool-cases (k == key)) [
              | inl same ↦ (
                index,
                step_found key index t next (at j) e same,
                record {
                  distance = j;
                  place = refl;
                  path = p.used;
                  outcome = found (ground arith);
                },
              )
              | inr differ ↦
                  let p' = Passed-suc j p nf (λ e'. ground arith) in
                  let (r, run, landed) =
                    go_on f d j t
                      (λ c lt free'.
                        find_loop-Landed f c (suc j) t lt free' p' (Remembers-suc j t m))
                      h free nf in
                  (r, step_other key index t next (at j) e differ ∙ run, landed)
            ]
        | inl e ↦ elim (Bool-cases (is_nil (at j).value)) [
          | inl blank ↦ (
            or_index t index,
            step_free key index t next (at j) e blank,
            free-Landed j t p m (e, is_nil→eq _ blank),
          )
          | inr grave ↦
              let nf : ¬ IsFree (at j) = λ free'. ground arith in
              let p' = Passed-suc j p nf (λ e'. cc (e, e')) in
              let u = some (or_index t index) in
              let (r, run, landed) =
                go_on f d j u
                  (λ c lt free'.
                    find_loop-Landed f c (suc j) u lt free' p' (Remembers-first j t m e))
                  h free nf in
              (r, step_tombstone key index t next (at j) e grave ∙ run, landed)
        ]
      ]

module _ (strings : Ptr → ObjString) where
  abbrev pub hash_of : Ptr → ℕ
  hash_of key = (strings key).hash

  -- While some slot is free, `findEntry` ends, in as many rounds as there are slots.
  pub find_entry-Landed :
      (entries : List Entry) (capacity : ℕ) (key : Ptr) (i : ℕ)
      → i < capacity
      → IsFree (entry_at entries i)
      → (r : ℕ) × (find_entry strings entries capacity key ≡ some r)
        × Landed entries capacity (hash_of key) key r
  unfolding find_entry
  find_entry-Landed entries capacity key i h free =
      let d = distance_to capacity (hash_of key) i in
      let none_passed : Passed entries capacity (hash_of key) key 0 = record {
        used = λ l lt. elim lt [ ];
        other = λ l lt. elim lt [ ];
      } in
      rw (← probe-zero capacity (hash_of key)) (
        find_loop-Landed entries capacity (hash_of key) key capacity d 0 none
          (distance_to-lt capacity (hash_of key) i h)
          (rw (zero-add d, probe-distance_to capacity (hash_of key) i h) free) none_passed tt)
