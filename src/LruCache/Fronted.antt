-- ===== src/LruCache/Fronted.antt =====
-- The order after `Get` of src/base/types/lru-cache.h.
use mathlib.Core.Path.{subst}
use yscript.Prelude.{
  ℕ, ◌<◌, ◌≡◌, sym, ap, ◌∙◌, inl, inr, List, [], ◌∷◌, Bool, true, false, some, ◌==◌, Bool-cases,
}
use yscript.LruCache.{LruCache, Node, find, erase_node, node_at, get}
use yscript.LruCache.Nodes.{
  lookup, without, seek, Agrees, pairs, IsBelow, IsBelow-erase_node, node_at-seek,
}
use yscript.LruCache.Erased.{
  erase_node-IsDistinct, pairs-erase_node, erase_node_found-IsApart, length-erase_node,
  seek-erase_node,
}
use yscript.LruCache.Ordered.{Ordered, present}

node_at-below {ℓ} :
    {K V : Type ℓ} (count : ℕ) (items : List (Node K V)) (i : ℕ) (n : Node K V)
    → IsBelow count items
    → node_at items i ≡ some n
    → n.id < count
node_at-below count [] i n b e = absurd (cc e)
node_at-below count (m ∷ rest) i n (b, bs) e = elim (Bool-cases (m.id == i)) [
  | inl hit ↦
      let first : some m ≡ some n = rw hit at e in
      let here : m ≡ n = cc first in subst (λ x. x.id < count) here b
  | inr miss ↦ node_at-below count rest i n bs (rw miss at e)
]

module _ {ℓ} {K V : Type ℓ} (same : K → K → Bool) (sound : (a b : K) → same a b ≡ true → a ≡ b)
    (known : (a : K) → same a a ≡ true) (c : LruCache K V) (l : List (K × V))
    (o : Ordered same c l) where
  module _ (key : K) where
    -- A node that comes to the front.
    fronts :
        (i : ℕ) (n : Node K V)
        → find same c.items_indexing_map key ≡ some i
        → node_at c.items_list i ≡ some n
        → n.id ≡ i
        → n.first ≡ key
        → Ordered same
            (record c { items_list = n ∷ erase_node c.items_list i })
            ((key, n.second) ∷ without same l key)
    fronts i n at_key at_i number names = record {
      distinct = (
        erase_node_found-IsApart same n c.items_list i
            (subst (λ k. Agrees same k i c.items_list) (sym names) agrees)
            (λ m other. ap (λ j. m.id == j) number ∙ other),
        erase_node-IsDistinct same c.items_list i o.distinct,
      );
      below = (
        node_at-below c.nodes c.items_list i n o.below at_i,
        IsBelow-erase_node c.nodes c.items_list i o.below,
      );
      indexed = λ k. elim (Bool-cases (same n.first k)) [
        | inl hit ↦
            let here : k ≡ key = sym (sound n.first k hit) ∙ names in
            rw hit (ap (find same c.items_indexing_map) here ∙ at_key ∙ ap some (sym number))
        | inr miss ↦
            let off : same key k ≡ false = ap (λ x. same x k) (sym names) ∙ miss in
            let rest : seek same (erase_node c.items_list i) k ≡ seek same c.items_list k =
              seek-erase_node same sound known key k c.items_list i agrees ∙ rw off in
            rw miss (o.indexed k ∙ sym rest)
      ];
      listed =
          ap (λ k. (k, n.second) ∷ pairs (erase_node c.items_list i)) names
          ∙ ap (λ ps. (key, n.second) ∷ ps)
              (pairs-erase_node same key c.items_list i agrees
                ∙ ap (λ ps. without same ps key) o.listed);
      counted =
          o.counted
          ∙ length-erase_node same key c.items_list i o.distinct agrees
              (sym (o.indexed key) ∙ at_key);
    }
      where
        agrees : Agrees same key i c.items_list
        agrees = present same sound known c l o key i at_key

    -- The node that is used comes to the front.
    pub get-Ordered :
        (i : ℕ)
        → find same c.items_indexing_map key ≡ some i
        → (v : V) × (lookup same l key ≡ some v)
          × ((get same key c).0 ≡ some v)
          × Ordered same (get same key c).1 ((key, v) ∷ without same l key)
    unfolding get
    get-Ordered i at_key =
        let (n, at_i, number, names, value) =
          node_at-seek same sound known key c.items_list i
            (present same sound known c l o key i at_key) (sym (o.indexed key) ∙ at_key) in
        (
          n.second,
          ap (λ ps. lookup same ps key) (sym o.listed) ∙ value,
          rw (get, at_key, at_i),
          rw (get, at_key, at_i) (fronts i n at_key at_i number names),
        )
