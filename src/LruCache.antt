-- ===== src/LruCache.antt =====
-- The cache of src/base/types/lru-cache.h. An iterator into the list is the number of its node, and
-- the map from keys to iterators is a list of pairs; `cur_size_` is a number of 64 bits.
pub mod Nodes
pub mod Erased
pub mod Evicted
pub mod Ordered
pub mod Fronted
pub mod Full
pub mod Uses
pub mod Answers
pub mod Stored
use yscript.Prelude.{
  ℕ, suc, ◌+◌, ◌-◌, ◌%◌, ◌^◌, List, [], ◌∷◌, Bool, true, false, not, Option, none, some, ◌==◌, ltb,
  if◌then◌else◌, length,
}

pub record Node {ℓ} (K V : Type ℓ) : Type ℓ where
  pub id : ℕ
  pub first : K
  pub second : V

-- `items_list_` with its front first; `nodes` counts the nodes that have been made.
pub record LruCache {ℓ} (K V : Type ℓ) : Type ℓ where
  pub max_size : ℕ
  pub cur_size : ℕ
  pub items_list : List (Node K V)
  pub items_indexing_map : List (K × ℕ)
  pub nodes : ℕ

abbrev pub less_one : ℕ → ℕ
less_one n = (n + 18446744073709551615) % 18446744073709551616

abbrev pub plus_one : ℕ → ℕ
plus_one n = (n + 1) % 18446744073709551616

-- `same` is the equality of keys that `std::unordered_map` uses.
module _ {ℓ} {K : Type ℓ} (same : K → K → Bool) where
  abbrev pub find : List (K × ℕ) → K → Option ℕ
  find [] key = none
  find ((k, i) ∷ rest) key = if same k key then some i else find rest key

  abbrev pub erase_key : List (K × ℕ) → K → List (K × ℕ)
  erase_key [] key = []
  erase_key ((k, i) ∷ rest) key =
      let further = erase_key rest key in if same k key then further else (k, i) ∷ further

module _ {ℓ} {K V : Type ℓ} where
  abbrev pub erase_node : List (Node K V) → ℕ → List (Node K V)
  erase_node [] i = []
  erase_node (n ∷ rest) i =
      let further = erase_node rest i in if n.id == i then further else n ∷ further

  abbrev pub node_at : List (Node K V) → ℕ → Option (Node K V)
  node_at [] i = none
  node_at (n ∷ rest) i = if n.id == i then some n else node_at rest i

  -- The list without its last node, and that node.
  abbrev pub pop_back : List (Node K V) → Option (List (Node K V) × Node K V)
  pop_back [] = none
  pop_back (n ∷ rest) = elim (pop_back rest) [
    | none ↦ some ([], n)
    | some (front, last) ↦ some (n ∷ front, last)
  ]

module _ {ℓ} {K V : Type ℓ} (same : K → K → Bool) where
  -- The first half of `Put`: the new node takes the place of an old one with the key.
  unfoldable pub put_front : K → V → LruCache K V → LruCache K V
  put_front key value c =
      let node : Node K V = record { id = c.nodes; first = key; second = value } in
      elim (find same c.items_indexing_map key) [
        | none ↦ record c {
          cur_size = plus_one c.cur_size;
          items_list = node ∷ c.items_list;
          items_indexing_map = (key, c.nodes) ∷ c.items_indexing_map;
          nodes = suc c.nodes;
        }
        | some i ↦ record c {
          cur_size = plus_one (less_one c.cur_size);
          items_list = node ∷ erase_node c.items_list i;
          items_indexing_map = (key, c.nodes) ∷ erase_key same c.items_indexing_map key;
          nodes = suc c.nodes;
        }
      ]

  -- The second half: the last node goes when there are too many.
  unfoldable pub evict : LruCache K V → LruCache K V
  evict c =
      let shrunk : LruCache K V = elim (pop_back c.items_list) [
        | none ↦ c
        | some (front, last) ↦ record c {
          cur_size = less_one c.cur_size;
          items_list = front;
          items_indexing_map = erase_key same c.items_indexing_map (last.first);
        }
      ] in
      if ltb c.max_size c.cur_size then shrunk else c

  unfoldable pub put : K → V → LruCache K V → LruCache K V
  unfolding put_front evict
  put key value c = evict (put_front key value c)

  -- `splice` of the node to the front.
  unfoldable pub get : K → LruCache K V → Option V × LruCache K V
  get key c = elim (find same c.items_indexing_map key) [
    | none ↦ (none, c)
    | some i ↦ elim (node_at c.items_list i) [
      | none ↦ (none, c)
      | some n ↦ (some n.second, record c { items_list = n ∷ erase_node c.items_list i })
    ]
  ]

  unfoldable pub erase : K → LruCache K V → LruCache K V
  erase key c = elim (find same c.items_indexing_map key) [
    | none ↦ c
    | some i ↦ record c {
      cur_size = less_one c.cur_size;
      items_list = erase_node c.items_list i;
      items_indexing_map = erase_key same c.items_indexing_map key;
    }
  ]

  unfoldable pub contain : K → LruCache K V → Bool
  contain key c = elim (find same c.items_indexing_map key) [ none ↦ false | some i ↦ true ]

module _ {ℓ} {K V : Type ℓ} where
  unfoldable pub init_cache : ℕ → LruCache K V
  init_cache max_size = record {
    max_size = max_size;
    cur_size = 0;
    items_list = [];
    items_indexing_map = [];
    nodes = 0;
  }

  unfoldable pub size : LruCache K V → ℕ
  size c = length c.items_indexing_map

  unfoldable pub clear : LruCache K V → LruCache K V
  clear c = record c { items_list = []; items_indexing_map = [] }

  unfoldable pub set_max_size : ℕ → LruCache K V → ℕ × LruCache K V
  unfolding clear
  set_max_size max_size c =
      let kept = if ltb c.max_size max_size then clear c else c in
      (max_size, record kept { max_size = max_size })
