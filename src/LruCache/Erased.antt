-- ===== src/LruCache/Erased.antt =====
-- The list of src/base/types/lru-cache.h without a key, and its index.
use yscript.Prelude.{
  ℕ, suc, ◌≡◌, refl, sym, ap, ◌∙◌, inl, inr, List, [], ◌∷◌, Bool, true, false, none, some, arith,
  ◌==◌, if◌then◌else◌, length, Bool-cases,
}
use yscript.LruCache.{erase_node, erase_key, Node, find}
use yscript.LruCache.Nodes.{
  without, seek, IsApart, IsDistinct, Agrees, pairs, IsBelow, differ, differ_from, same_sym,
}

module _ {ℓ} {K V : Type ℓ} (same : K → K → Bool) where
  pub erase_node-IsApart :
      (n : Node K V) (items : List (Node K V)) (i : ℕ)
      → IsApart same n items
      → IsApart same n (erase_node items i)
  erase_node-IsApart n [] i a = tt
  erase_node-IsApart n (m ∷ rest) i (number, key, a) =
      let further = erase_node-IsApart n rest i a in
      elim (Bool-cases (m.id == i)) [
        | inl hit ↦ rw hit further
        | inr miss ↦ rw miss (number, key, further)
      ]

  pub erase_node-IsDistinct :
      (items : List (Node K V)) (i : ℕ)
      → IsDistinct same items
      → IsDistinct same (erase_node items i)
  erase_node-IsDistinct [] i d = tt
  erase_node-IsDistinct (n ∷ rest) i (a, d) =
      let further = erase_node-IsDistinct rest i d in
      elim (Bool-cases (n.id == i)) [
        | inl hit ↦ rw hit further
        | inr miss ↦ rw miss (erase_node-IsApart n rest i a, further)
      ]

  pub pairs-erase_node :
      (key : K) (items : List (Node K V)) (i : ℕ)
      → Agrees same key i items
      → pairs (erase_node items i) ≡ without same (pairs items) key
  pairs-erase_node key [] i a = refl
  pairs-erase_node key (n ∷ rest) i (a, as_rest) =
      let further = pairs-erase_node key rest i as_rest in
      elim (Bool-cases (same n.first key)) [
        | inl hit ↦ rw (a, hit) further
        | inr miss ↦ rw (a, miss) (ap (λ ps. (n.first, n.second) ∷ ps) further)
      ]

  -- No node with the key is left, and a node with another number and the key is apart from the others.
  pub erase_node_found-IsApart :
      (n : Node K V) (items : List (Node K V)) (i : ℕ)
      → Agrees same n.first i items
      → ((m : Node K V) → (m.id == i) ≡ false → (m.id == n.id) ≡ false)
      → IsApart same n (erase_node items i)
  erase_node_found-IsApart n [] i a other = tt
  erase_node_found-IsApart n (m ∷ rest) i (a, as_rest) other =
      let further = erase_node_found-IsApart n rest i as_rest other in
      elim (Bool-cases (m.id == i)) [
        | inl hit ↦ rw hit further
        | inr miss ↦ rw miss (other m miss, sym a ∙ miss, further)
      ]

  pub erase_node_below-IsApart :
      (n : Node K V) (items : List (Node K V)) (i : ℕ)
      → Agrees same n.first i items
      → IsBelow n.id items
      → IsApart same n (erase_node items i)
  erase_node_below-IsApart n [] i a b = tt
  erase_node_below-IsApart n (m ∷ rest) i (a, as_rest) (b, bs) =
      let further = erase_node_below-IsApart n rest i as_rest bs in
      elim (Bool-cases (m.id == i)) [
        | inl hit ↦ rw hit further
        | inr miss ↦ rw miss ((ground arith), sym a ∙ miss, further)
      ]

  erase_node-stays :
      (n : Node K V) (items : List (Node K V))
      → IsApart same n items
      → erase_node items n.id ≡ items
  erase_node-stays n [] a = refl
  erase_node-stays n (m ∷ rest) (other, _, a) =
      rw other (ap (λ items. m ∷ items) (erase_node-stays n rest a))

  pub length-erase_node :
      (key : K) (items : List (Node K V)) (i : ℕ)
      → IsDistinct same items
      → Agrees same key i items
      → seek same items key ≡ some i
      → length items ≡ suc (length (erase_node items i))
  length-erase_node key [] i d a e = absurd (cc e)
  length-erase_node key (n ∷ rest) i (apart, d) (a, as_rest) e =
      elim (Bool-cases (same n.first key)) [
        | inl hit ↦
            let first : some n.id ≡ some i = rw hit at e in
            let here : n.id ≡ i = cc first in
            rw (a, hit, ← here, erase_node-stays n rest apart) refl
        | inr miss ↦ rw (a, miss) (ap suc (length-erase_node key rest i d as_rest (rw miss at e)))
      ]

module _ {ℓ} {K : Type ℓ} (same : K → K → Bool) (sound : (a b : K) → same a b ≡ true → a ≡ b)
    (known : (a : K) → same a a ≡ true) where
  pub find-erase_key :
      (index : List (K × ℕ)) (key k : K)
      → find same (erase_key same index key) k ≡ (if same key k then none else find same index k)
  find-erase_key [] key k = elim (Bool-cases (same key k)) [ inl hit ↦ rw hit | inr miss ↦ rw miss ]
  find-erase_key ((k', i) ∷ rest) key k =
      let further = find-erase_key rest key k in
      elim (Bool-cases (same k' key)) [
        | inl hit ↦ elim (Bool-cases (same key k)) [
          | inl at_k ↦ rw hit (further ∙ rw at_k)
          | inr off ↦ rw hit (further ∙ rw (off, differ_from same sound known k' key k hit off))
        ]
        | inr miss ↦ elim (Bool-cases (same k' k)) [
          | inl at_k ↦ rw (
            miss,
            at_k,
            differ same sound known k' k key at_k (same_sym same sound known k' key miss),
          )
          | inr off ↦ rw (miss, off) further
        ]
      ]

module _ {ℓ} {K V : Type ℓ} (same : K → K → Bool) (sound : (a b : K) → same a b ≡ true → a ≡ b)
    (known : (a : K) → same a a ≡ true) where
  pub seek-erase_node :
      (key k : K) (items : List (Node K V)) (i : ℕ)
      → Agrees same key i items
      → seek same (erase_node items i) k ≡ (if same key k then none else seek same items k)
  seek-erase_node key k [] i a = elim (Bool-cases (same key k)) [
    | inl hit ↦ rw hit
    | inr miss ↦ rw miss
  ]
  seek-erase_node key k (n ∷ rest) i (a, as_rest) =
      let further = seek-erase_node key k rest i as_rest in
      elim (Bool-cases (same n.first key)) [
        | inl hit ↦ elim (Bool-cases (same key k)) [
          | inl at_k ↦ rw (a, hit) (further ∙ rw at_k)
          | inr off ↦
              rw (a, hit) (further ∙ rw (off, differ_from same sound known n.first key k hit off))
        ]
        | inr miss ↦ elim (Bool-cases (same n.first k)) [
          | inl at_k ↦ rw (
            a,
            miss,
            at_k,
            differ same sound known n.first k key at_k (same_sym same sound known n.first key miss),
          )
          | inr off ↦ rw (a, miss, off) further
        ]
      ]
