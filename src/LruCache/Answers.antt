-- ===== src/LruCache/Answers.antt =====
-- That the cache of src/base/types/lru-cache.h answers as the list of the pairs does.
use yscript.Prelude.{
  ℕ, zero, suc, ◌≤◌, ◌<◌, ◌≡◌, refl, sym, ap, ◌∙◌, inl, inr, List, [], ◌∷◌, Bool, true, ltb, none,
  some, arith, length, take, Option-cases, Bool-cases,
}
use yscript.LruCache.{
  LruCache, find, node_at, init_cache, put, put_front, evict, get, erase, contain, pop_back,
}
use yscript.LruCache.Nodes.{lookup, without, lookup-seek}
use yscript.LruCache.Ordered.{Ordered, erase-Ordered, put_front-Ordered, length-listed}
use yscript.LruCache.Fronted.{get-Ordered}
use yscript.LruCache.Full.{evict-Ordered}
use yscript.LruCache.Uses.{
  Use, put_of, get_of, erase_of, contain_of, got, perform, answers, recall, recalled,
}

take_short {ℓ} : {A : Type ℓ} (n : ℕ) (xs : List A) → length (take n xs) ≤ n
take_short zero xs = omega arith
take_short (suc n) [] = omega arith
take_short (suc n) (x ∷ xs) = omega (arith, take_short n xs)

module _ {ℓ} {K V : Type ℓ} (same : K → K → Bool) where
  -- The cache means at most `max` pairs.
  record Holds (max : ℕ) (c : LruCache K V) (l : List (K × V)) : Type ℓ where
    ordered : Ordered same c l
    few : length l ≤ max
    limit : c.max_size ≡ max

  length-without : (l : List (K × V)) (key : K) → length (without same l key) ≤ length l
  length-without [] key = omega arith
  length-without ((k, v) ∷ l) key =
      let further = length-without l key in
      elim (Bool-cases (same k key)) [
        | inl hit ↦ rw hit (omega (arith, further))
        | inr miss ↦ rw miss (omega (arith, further))
      ]

  length-without_found :
      (l : List (K × V)) (key : K) {v : V}
      → lookup same l key ≡ some v
      → suc (length (without same l key)) ≤ length l
  length-without_found [] key e = absurd (cc e)
  length-without_found ((k, w) ∷ l) key e = elim (Bool-cases (same k key)) [
    | inl hit ↦ rw hit (omega (arith, length-without l key))
    | inr miss ↦ rw miss (omega (arith, length-without_found l key (rw miss at e)))
  ]

  module _ (c : LruCache K V) where
    put_front_limit : (key : K) (value : V) → (put_front same key value c).max_size ≡ c.max_size
    unfolding put_front
    put_front_limit key value = elim (Option-cases (find same c.items_indexing_map key)) [
      | inl missing ↦ rw (put_front, missing)
      | inr (i, at_key) ↦ rw (put_front, at_key)
    ]

    evict_limit : (evict same c).max_size ≡ c.max_size
    unfolding evict
    evict_limit = elim (Bool-cases (ltb c.max_size c.cur_size)) [
      | inl over ↦ elim (Option-cases (pop_back c.items_list)) [
        | inl missing ↦ rw (evict, over, missing)
        | inr (popped, at_back) ↦ rw (evict, over, at_back)
      ]
      | inr roomy ↦ rw (evict, roomy)
    ]

    erase_limit : (key : K) → (erase same key c).max_size ≡ c.max_size
    unfolding erase
    erase_limit key = elim (Option-cases (find same c.items_indexing_map key)) [
      | inl missing ↦ rw (erase, missing)
      | inr (i, at_key) ↦ rw (erase, at_key)
    ]

    get_limit : (key : K) → (get same key c).1.max_size ≡ c.max_size
    unfolding get
    get_limit key = elim (Option-cases (find same c.items_indexing_map key)) [
      | inl missing ↦ rw (get, missing)
      | inr (i, at_key) ↦ elim (Option-cases (node_at c.items_list i)) [
        | inl gone ↦ rw (get, at_key, gone)
        | inr (n, at_i) ↦ rw (get, at_key, at_i)
      ]
    ]

module _ {ℓ} {K V : Type ℓ} (same : K → K → Bool) (sound : (a b : K) → same a b ≡ true → a ≡ b)
    (known : (a : K) → same a a ≡ true) (max : ℕ) (fits : max < 18446744073709551615) where
  module _ (c : LruCache K V) (l : List (K × V)) (h : Holds same max c l) where
    within : c.cur_size < 18446744073709551615
    within =
        omega (arith, fits, h.few, h.ordered.counted, length-listed same sound known c l h.ordered)

    lookup_absent : (key : K) → find same c.items_indexing_map key ≡ none → lookup same l key ≡ none
    lookup_absent key missing =
        ap (λ ps. lookup same ps key) (sym h.ordered.listed)
        ∙ lookup-seek same sound known key c.items_list (sym (h.ordered.indexed key) ∙ missing)

    put-Holds :
        (key : K) (value : V)
        → Holds same max (put same key value c) (take max ((key, value) ∷ without same l key))
    unfolding put
    put-Holds key value =
        let front = put_front same key value c in
        let limit : front.max_size ≡ max = put_front_limit same c key value ∙ h.limit in
        let ordered = put_front-Ordered same sound known c l h.ordered key value within in
        let short : suc (length (without same l key)) ≤ suc front.max_size =
          omega (arith, length-without same l key, h.few, limit) in
        record {
          ordered = rw (← limit) (
              evict-Ordered same sound known front ((key, value) ∷ without same l key) ordered short
                (omega (arith, limit, fits)));
          few = take_short max ((key, value) ∷ without same l key);
          limit = evict_limit same front ∙ limit;
        }

    perform-recall :
        (u : Use K V)
        → ((perform same u c).0 ≡ (recall same max u l).0)
          × Holds same max (perform same u c).1 (recall same max u l).1
    unfolding perform get contain
    perform-recall (put_of key value) = (refl, put-Holds key value)
    perform-recall (get_of key) = elim (Option-cases (find same c.items_indexing_map key)) [
      | inl missing ↦ rw (recall, perform, get, missing, lookup_absent key missing) (refl, h)
      | inr (i, at_key) ↦
          let (v, found, value, ordered) =
            get-Ordered same sound known c l h.ordered key i at_key in
          rw (recall, found)
            (
              ap got value,
              record {
                ordered = ordered;
                few = omega (arith, length-without_found same l key found, h.few);
                limit = get_limit same c key ∙ h.limit;
              },
            )
    ]
    perform-recall (erase_of key) = (
      refl,
      record {
        ordered = erase-Ordered same sound known c l h.ordered key (omega (arith, within));
        few = omega (arith, length-without same l key, h.few);
        limit = erase_limit same c key ∙ h.limit;
      },
    )
    perform-recall (contain_of key) = elim (Option-cases (find same c.items_indexing_map key)) [
      | inl missing ↦ rw (recall, perform, contain, missing, lookup_absent key missing) (refl, h)
      | inr (i, at_key) ↦
          let (v, found, value, ordered) =
            get-Ordered same sound known c l h.ordered key i at_key in
          rw (recall, perform, contain, at_key, found) (refl, h)
    ]

  answers-from :
      (uses : List (Use K V)) (c : LruCache K V) (l : List (K × V))
      → Holds same max c l
      → answers same uses c ≡ recalled same max uses l
  unfolding answers
  answers-from [] c l h = refl
  answers-from (u ∷ uses) c l h =
      let (answer, holds) = perform-recall c l h u in
      ap (λ a. a ∷ answers same uses (perform same u c).1) answer
      ∙ ap (λ rest. (recall same max u l).0 ∷ rest)
          (answers-from uses (perform same u c).1 (recall same max u l).1 holds)

  -- An LRU cache that is made with a limit below 2 ^ 64 - 1 answers any sequence of Put, Get, Erase and
  -- Contain as the list of its pairs does, in which a Put or a Get of a key moves its pair to the front, and
  -- of which only as many as the limit stay after a Put. Keys are compared by equality.
  pub answers-recalled :
      (uses : List (Use K V)) → answers same uses (init_cache max) ≡ recalled same max uses []
  unfolding init_cache
  answers-recalled uses = answers-from uses (init_cache max) [] (record {
    ordered = record {
      distinct = tt;
      below = tt;
      indexed = λ k. refl;
      listed = refl;
      counted = refl;
    };
    few = omega arith;
    limit = refl;
  })
