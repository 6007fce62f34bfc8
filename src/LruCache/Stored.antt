-- ===== src/LruCache/Stored.antt =====
-- What `Put` of src/base/types/lru-cache.h stores.
use yscript.Prelude.{
  ℕ, suc, ◌≤◌, ◌<◌, ◌≡◌, refl, sym, ap, ◌∙◌, inl, inr, List, ◌∷◌, Bool, true, false, some, arith,
  ◌==◌, ltb, Option-cases,
}
use mathlib.Core.Path.{subst}
use yscript.LruCache.{
  erase_node, erase_key, LruCache, Node, find, put_front, evict, put, get, contain, clear, less_one,
  plus_one,
}

module _ {ℓ} {K V : Type ℓ} (same : K → K → Bool) (c : LruCache K V) where
  evict_roomy : ltb c.max_size c.cur_size ≡ false → evict same c ≡ c
  unfolding evict
  evict_roomy roomy = simp (evict, roomy)

  get_front :
      (key : K) (n : Node K V) (items : List (Node K V)) (index : List (K × ℕ))
      → same key key ≡ true
      → c.items_list ≡ n ∷ items
      → c.items_indexing_map ≡ (key, n.id) ∷ index
      → (get same key c).0 ≡ some n.second
  unfolding get
  get_front key n items index known front indexed =
      let here : (n.id == n.id) ≡ true = ground arith in rw (get, indexed, known, front, here)

module _ {ℓ} {K V : Type ℓ} (same : K → K → Bool) (key : K) (value : V) (c : LruCache K V)
    (known : same key key ≡ true) where
  abbrev node : Node K V
  node = record { id = c.nodes; first = key; second = value }

  abbrev fronted : ℕ → List (Node K V) → List (K × ℕ) → LruCache K V
  fronted count items index = record c {
    cur_size = count;
    items_list = node ∷ items;
    items_indexing_map = (key, c.nodes) ∷ index;
    nodes = suc c.nodes;
  }

  put_front-fronted :
      c.cur_size < c.max_size
      → c.max_size < 18446744073709551616
      → (count : ℕ) × (items : List (Node K V)) × (index : List (K × ℕ)) × (put_front same key value
            c
          ≡ fronted count items index)
        × (count ≤ c.max_size)
  unfolding put_front
  put_front-fronted room fits = elim (Option-cases (find same c.items_indexing_map key)) [
    | inl new ↦ (
      plus_one c.cur_size,
      c.items_list,
      c.items_indexing_map,
      simp (put_front, new),
      omega arith,
    )
    | inr (i, old) ↦ (
      plus_one (less_one c.cur_size),
      erase_node c.items_list i,
      erase_key same c.items_indexing_map key,
      simp (put_front, old),
      omega arith,
    )
  ]

  -- After the `Put` of a key into a cache whose count is below its limit, `Get` of the key finds the value.
  get-put :
      c.cur_size < c.max_size
      → c.max_size < 18446744073709551616
      → (get same key (put same key value c)).0 ≡ some value
  unfolding put
  get-put room fits =
      let (count, items, index, front, few) = put_front-fronted room fits in
      let roomy : ltb c.max_size count ≡ false = ground arith in
      let stored : put same key value c ≡ fronted count items index =
        ap (evict same) front ∙ evict_roomy same (fronted count items index) roomy in
      subst (λ d. (get same key d).0 ≡ some value) (sym stored)
        (get_front same (fronted count items index) key node items index known refl refl)

  -- `Clear` leaves the count of a cache as it was: a `Put` into a full cache that has been cleared evicts what it has put in.
  pub contain-put-clear :
      c.max_size ≤ c.cur_size
      → c.cur_size < 18446744073709551615
      → contain same key (put same key value (clear c)) ≡ false
  unfolding contain put put_front evict clear
  contain-put-clear full fits =
      let over : ltb c.max_size (plus_one c.cur_size) ≡ true = ground arith in rw (over, known)
