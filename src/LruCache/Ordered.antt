-- ===== src/LruCache/Ordered.antt =====
-- The order that the operations of src/base/types/lru-cache.h keep.
use mathlib.Core.Path.{subst}
use yscript.Prelude.{
  ℕ, suc, ◌≤◌, ◌<◌, ◌≡◌, sym, ap, ◌∙◌, inl, inr, List, ◌∷◌, Bool, true, none, some, arith,
  if◌then◌else◌, length, Option-cases,
}
use yscript.LruCache.{LruCache, Node, find, put_front, erase, plus_one}
use yscript.LruCache.Nodes.{
  without, seek, IsApart, IsDistinct, Agrees, pairs, IsBelow, IsBelow-suc, IsBelow-erase_node,
  seek-Agrees, absent-Agrees, erase_node-below,
}
use yscript.LruCache.Erased.{
  erase_node-IsDistinct, pairs-erase_node, erase_node_below-IsApart, length-erase_node,
  find-erase_key, seek-erase_node,
}
use yscript.LruCache.Evicted.{length-pairs}

module _ {ℓ} {K V : Type ℓ} (same : K → K → Bool) where
  -- The cache means the pairs: its index names the nodes, each key once, and its count is theirs.
  pub record Ordered (c : LruCache K V) (l : List (K × V)) : Type ℓ where
    pub distinct : IsDistinct same c.items_list
    pub below : IsBelow c.nodes c.items_list
    pub indexed : (k : K) → find same c.items_indexing_map k ≡ seek same c.items_list k
    pub listed : pairs c.items_list ≡ l
    pub counted : c.cur_size ≡ length c.items_list

module _ {ℓ} {K V : Type ℓ} (key : K) (value : V) (d : LruCache K V) where
  abbrev node : Node K V
  node = record { id = d.nodes; first = key; second = value }

  -- A new node in front of the others.
  abbrev fronted : LruCache K V
  fronted = record d {
    cur_size = plus_one d.cur_size;
    items_list = node ∷ d.items_list;
    items_indexing_map = (key, d.nodes) ∷ d.items_indexing_map;
    nodes = suc d.nodes;
  }

  fronted-Ordered :
      (same : K → K → Bool) (l : List (K × V))
      → Ordered same d l
      → IsApart same node d.items_list
      → d.cur_size < 18446744073709551615
      → Ordered same fronted ((key, value) ∷ l)
  fronted-Ordered same l o apart fits = record {
    distinct = (apart, o.distinct);
    below = (omega arith, IsBelow-suc d.nodes d.items_list o.below);
    indexed = λ k. ap (λ found. if same key k then some d.nodes else found) (o.indexed k);
    listed = ap (λ ps. (key, value) ∷ ps) o.listed;
    counted = omega (arith, fits, o.counted);
  }

module _ {ℓ} {K V : Type ℓ} (same : K → K → Bool) (sound : (a b : K) → same a b ≡ true → a ≡ b)
    (known : (a : K) → same a a ≡ true) (c : LruCache K V) (l : List (K × V))
    (o : Ordered same c l) where
  pub length-listed : length l ≡ length c.items_list
  length-listed = ap length (sym o.listed) ∙ length-pairs c.items_list

  module _ (key : K) where
    pub absent : find same c.items_indexing_map key ≡ none → Agrees same key c.nodes c.items_list
    absent e =
        absent-Agrees same sound known key c.items_list c.nodes o.below (sym (o.indexed key) ∙ e)

    pub present :
        (i : ℕ) → find same c.items_indexing_map key ≡ some i → Agrees same key i c.items_list
    present i e =
        seek-Agrees same sound known key c.items_list i o.distinct (sym (o.indexed key) ∙ e)

    pub without_absent : find same c.items_indexing_map key ≡ none → without same l key ≡ l
    without_absent e = rw (← o.listed) (
        sym (pairs-erase_node same key c.items_list c.nodes (absent e))
        ∙ ap pairs (erase_node-below same sound known c.items_list c.nodes o.below))

    pub erase-Ordered :
        c.cur_size < 18446744073709551616 → Ordered same (erase same key c) (without same l key)
    unfolding erase
    erase-Ordered fits = elim (Option-cases (find same c.items_indexing_map key)) [
      | inl missing ↦ rw (erase, missing, without_absent missing) o
      | inr (i, at_key) ↦
          let agrees = present i at_key in
          let shorter =
            length-erase_node same key c.items_list i o.distinct agrees
              (sym (o.indexed key) ∙ at_key) in
          rw (erase, at_key)
            (record {
              distinct = erase_node-IsDistinct same c.items_list i o.distinct;
              below = IsBelow-erase_node c.nodes c.items_list i o.below;
              indexed = λ k.
                  find-erase_key same sound known c.items_indexing_map key k
                  ∙ ap (λ found. if same key k then none else found) (o.indexed k)
                  ∙ sym (seek-erase_node same sound known key k c.items_list i agrees);
              listed =
                  pairs-erase_node same key c.items_list i agrees
                  ∙ ap (λ ps. without same ps key) o.listed;
              counted = omega (arith, fits, o.counted, shorter);
            })
    ]

    -- No more than before.
    erase-fewer : c.cur_size < 18446744073709551616 → (erase same key c).cur_size ≤ c.cur_size
    unfolding erase
    erase-fewer fits = elim (Option-cases (find same c.items_indexing_map key)) [
      | inl missing ↦ rw (erase, missing) (omega arith)
      | inr (i, at_key) ↦
          let sought = sym (o.indexed key) ∙ at_key in
          let shorter =
            length-erase_node same key c.items_list i o.distinct (present i at_key) sought in
          rw (erase, at_key) (omega (arith, fits, o.counted, shorter))
    ]

    module _ (value : V) where
      pub put_front-fronted : put_front same key value c ≡ fronted key value (erase same key c)
      unfolding put_front erase
      put_front-fronted = elim (Option-cases (find same c.items_indexing_map key)) [
        | inl missing ↦ rw (put_front, erase, missing)
        | inr (i, at_key) ↦ rw (put_front, erase, at_key)
      ]

      erase-IsApart : IsApart same (node key value (erase same key c)) (erase same key c).items_list
      unfolding erase
      erase-IsApart = elim (Option-cases (find same c.items_indexing_map key)) [
        | inl missing ↦
            rw (erase, missing)
              (subst (IsApart same (node key value c))
                (erase_node-below same sound known c.items_list c.nodes o.below)
                (erase_node_below-IsApart same (node key value c) c.items_list c.nodes
                  (absent missing) o.below))
        | inr (i, at_key) ↦
            rw (erase, at_key)
              (erase_node_below-IsApart same (node key value c) c.items_list i (present i at_key)
                o.below)
      ]

      pub put_front-Ordered :
          c.cur_size < 18446744073709551615
          → Ordered same (put_front same key value c) ((key, value) ∷ without same l key)
      put_front-Ordered fits =
          let smaller : (erase same key c).cur_size < 18446744073709551615 =
            omega (arith, erase-fewer (omega (arith, fits)), fits) in
          rw put_front-fronted (
            fronted-Ordered key value (erase same key c) same (without same l key)
              (erase-Ordered (omega (arith, fits))) erase-IsApart smaller)
