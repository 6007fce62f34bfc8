-- ===== src/LruCache/Nodes.antt =====
-- The list of src/base/types/lru-cache.h as pairs of keys and values, and its index.
use mathlib.Core.Path.{subst}
use yscript.Prelude.{
  ℕ, suc, ◌<◌, ◌≡◌, refl, sym, ap, ◌∙◌, inl, inr, List, [], ◌∷◌, Bool, true, false, Option, none,
  some, arith, ◌==◌, if◌then◌else◌, Bool-cases,
}
use yscript.LruCache.{erase_node, Node, node_at}

-- The pairs that the cache means, the one that was used last first.
module _ {ℓ} {K V : Type ℓ} (same : K → K → Bool) where
  abbrev pub lookup : List (K × V) → K → Option V
  lookup [] key = none
  lookup ((k, v) ∷ rest) key = if same k key then some v else lookup rest key

  abbrev pub without : List (K × V) → K → List (K × V)
  without [] key = []
  without ((k, v) ∷ rest) key =
      let further = without rest key in if same k key then further else (k, v) ∷ further

  abbrev pub seek : List (Node K V) → K → Option ℕ
  seek [] key = none
  seek (n ∷ rest) key = if same n.first key then some n.id else seek rest key

  -- No node of the list has the number or the key of `n`.
  abbrev pub IsApart : Node K V → List (Node K V) → Type 0
  IsApart n [] = Unit
  IsApart n (m ∷ rest) = ((m.id == n.id) ≡ false) × (same m.first n.first ≡ false) × IsApart n rest

  abbrev pub IsDistinct : List (Node K V) → Type 0
  IsDistinct [] = Unit
  IsDistinct (n ∷ rest) = IsApart n rest × IsDistinct rest

  -- The nodes with the number are the ones with the key.
  abbrev pub Agrees : K → ℕ → List (Node K V) → Type 0
  Agrees key i [] = Unit
  Agrees key i (n ∷ rest) = ((n.id == i) ≡ same n.first key) × Agrees key i rest

module _ {ℓ} {K V : Type ℓ} where
  abbrev pub pairs : List (Node K V) → List (K × V)
  pairs [] = []
  pairs (n ∷ rest) = (n.first, n.second) ∷ pairs rest

  abbrev pub IsBelow : ℕ → List (Node K V) → Type 0
  IsBelow count [] = Unit
  IsBelow count (n ∷ rest) = (n.id < count) × IsBelow count rest

  pub IsBelow-suc :
      (count : ℕ) (items : List (Node K V)) → IsBelow count items → IsBelow (suc count) items
  IsBelow-suc count [] b = tt
  IsBelow-suc count (n ∷ rest) (b, bs) = (omega (arith, b), IsBelow-suc count rest bs)

  pub IsBelow-erase_node :
      (count : ℕ) (items : List (Node K V)) (i : ℕ)
      → IsBelow count items
      → IsBelow count (erase_node items i)
  IsBelow-erase_node count [] i b = tt
  IsBelow-erase_node count (n ∷ rest) i (b, bs) =
      let further = IsBelow-erase_node count rest i bs in
      elim (Bool-cases (n.id == i)) [ inl hit ↦ rw hit further | inr miss ↦ rw miss (b, further) ]

-- `same` is equality.
module _ {ℓ} {K : Type ℓ} (same : K → K → Bool) (sound : (a b : K) → same a b ≡ true → a ≡ b)
    (known : (a : K) → same a a ≡ true) where
  pub differ : (a b c : K) → same a b ≡ true → same c a ≡ false → same c b ≡ false
  differ a b c e miss = ap (same c) (sym (sound a b e)) ∙ miss

  pub differ_from : (a b c : K) → same a b ≡ true → same b c ≡ false → same a c ≡ false
  differ_from a b c e miss = ap (λ x. same x c) (sound a b e) ∙ miss

  pub same_sym : (a b : K) → same a b ≡ false → same b a ≡ false
  same_sym a b miss = elim (Bool-cases (same b a)) [
    | inl hit ↦ absurd (cc (miss, known a, ap (same a) (sound b a hit)))
    | inr other ↦ other
  ]

module _ {ℓ} {K V : Type ℓ} (same : K → K → Bool) (sound : (a b : K) → same a b ≡ true → a ≡ b)
    (known : (a : K) → same a a ≡ true) where
  apart-Agrees :
      (n : Node K V) (key : K) (rest : List (Node K V))
      → same n.first key ≡ true
      → IsApart same n rest
      → Agrees same key n.id rest
  apart-Agrees n key [] e a = tt
  apart-Agrees n key (m ∷ rest) e (i, k, a) =
      (i ∙ sym (differ same sound known n.first key m.first e k), apart-Agrees n key rest e a)

  seek_apart :
      (n : Node K V) (key : K) (rest : List (Node K V)) (i : ℕ)
      → IsApart same n rest
      → seek same rest key ≡ some i
      → (n.id == i) ≡ false
  seek_apart n key [] i a e = absurd (cc e)
  seek_apart n key (m ∷ rest) i (other, k, a) e = elim (Bool-cases (same m.first key)) [
    | inl hit ↦
        let first : some m.id ≡ some i = rw hit at e in
        let here : m.id ≡ i = cc first in ground (arith, other, here)
    | inr miss ↦ seek_apart n key rest i a (rw miss at e)
  ]

  pub seek-Agrees :
      (key : K) (items : List (Node K V)) (i : ℕ)
      → IsDistinct same items
      → seek same items key ≡ some i
      → Agrees same key i items
  seek-Agrees key [] i d e = tt
  seek-Agrees key (n ∷ rest) i (a, d) e = elim (Bool-cases (same n.first key)) [
    | inl hit ↦
        let first : some n.id ≡ some i = rw hit at e in
        let here : n.id ≡ i = cc first in
        let itself : (n.id == i) ≡ true = ground (arith, here) in
        (itself ∙ sym hit, subst (λ j. Agrees same key j rest) here (apart-Agrees n key rest hit a))
    | inr miss ↦
        let further : seek same rest key ≡ some i = rw miss at e in
        (seek_apart n key rest i a further ∙ sym miss, seek-Agrees key rest i d further)
  ]

  -- Where no node has the key, a number that no node has agrees with it.
  pub absent-Agrees :
      (key : K) (items : List (Node K V)) (i : ℕ)
      → IsBelow i items
      → seek same items key ≡ none
      → Agrees same key i items
  absent-Agrees key [] i b e = tt
  absent-Agrees key (n ∷ rest) i (b, bs) e = elim (Bool-cases (same n.first key)) [
    | inl hit ↦ let first : some n.id ≡ none = rw hit at e in absurd (cc first)
    | inr miss ↦
        let further : seek same rest key ≡ none = rw miss at e in
        let other : (n.id == i) ≡ false = ground arith in
        (other ∙ sym miss, absent-Agrees key rest i bs further)
  ]

  pub erase_node-below :
      (items : List (Node K V)) (i : ℕ) → IsBelow i items → erase_node items i ≡ items
  erase_node-below [] i b = refl
  erase_node-below (n ∷ rest) i (b, bs) =
      let other : (n.id == i) ≡ false = ground arith in
      rw other (ap (λ items. n ∷ items) (erase_node-below rest i bs))

  -- The node that the index names.
  pub node_at-seek :
      (key : K) (items : List (Node K V)) (i : ℕ)
      → Agrees same key i items
      → seek same items key ≡ some i
      → (n : Node K V) × (node_at items i ≡ some n)
        × (n.id ≡ i)
        × (n.first ≡ key)
        × (lookup same (pairs items) key ≡ some n.second)
  node_at-seek key [] i a e = absurd (cc e)
  node_at-seek key (n ∷ rest) i (a, further) e = elim (Bool-cases (same n.first key)) [
    | inl hit ↦
        let first : some n.id ≡ some i = rw hit at e in
        (n, rw (a, hit), cc first, sound n.first key hit, rw hit)
    | inr miss ↦
        let (m, at_m, number, names, value) = node_at-seek key rest i further (rw miss at e) in
        (m, rw (a, miss) at_m, number, names, rw miss value)
  ]

  pub lookup-seek :
      (key : K) (items : List (Node K V))
      → seek same items key ≡ none
      → lookup same (pairs items) key ≡ none
  lookup-seek key [] e = refl
  lookup-seek key (n ∷ rest) e = elim (Bool-cases (same n.first key)) [
    | inl hit ↦ let first : some n.id ≡ none = rw hit at e in absurd (cc first)
    | inr miss ↦ rw miss (lookup-seek key rest (rw miss at e))
  ]
