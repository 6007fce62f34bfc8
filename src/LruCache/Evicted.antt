-- ===== src/LruCache/Evicted.antt =====
-- The last node of the list of src/base/types/lru-cache.h, which `Put` takes away from a full cache.
use yscript.Prelude.{
  ℕ, suc, ◌≡◌, refl, sym, ap, ◌∙◌, inl, inr, List, [], ◌∷◌, ◌++◌, Bool, true, false, none, some,
  if◌then◌else◌, length, take, Bool-cases,
}
use yscript.LruCache.{Node, pop_back}
use yscript.LruCache.Nodes.{seek, IsApart, IsDistinct, pairs, IsBelow}

module _ {ℓ} {K V : Type ℓ} where
  pub pop_back-last :
      (n : Node K V) (rest : List (Node K V))
      → (front : List (Node K V)) × (last : Node K V) × (pop_back (n ∷ rest) ≡ some (front, last))
        × (n ∷ rest ≡ front ++ last ∷ [])
  pop_back-last n [] = ([], n, refl, refl)
  pop_back-last n (m ∷ rest) =
      let (front, last, popped, whole) = pop_back-last m rest in
      (n ∷ front, last, rw popped, ap (λ items. n ∷ items) whole)

  pub length-last :
      (front : List (Node K V)) (last : Node K V) → length (front ++ last ∷ []) ≡ suc (length front)
  length-last [] last = refl
  length-last (n ∷ front) last = ap suc (length-last front last)

  pub take-last :
      (front : List (Node K V)) (last : Node K V)
      → take (length front) (pairs (front ++ last ∷ [])) ≡ pairs front
  take-last [] last = refl
  take-last (n ∷ front) last = ap (λ ps. (n.first, n.second) ∷ ps) (take-last front last)

  pub length-pairs : (items : List (Node K V)) → length (pairs items) ≡ length items
  length-pairs [] = refl
  length-pairs (n ∷ rest) = ap suc (length-pairs rest)

  pub IsBelow-last :
      (count : ℕ) (front : List (Node K V)) (last : Node K V)
      → IsBelow count (front ++ last ∷ [])
      → IsBelow count front
  IsBelow-last count [] last b = tt
  IsBelow-last count (n ∷ front) last (b, bs) = (b, IsBelow-last count front last bs)

module _ {ℓ} {K V : Type ℓ} (same : K → K → Bool) where
  IsApart-last :
      (n : Node K V) (front : List (Node K V)) (last : Node K V)
      → IsApart same n (front ++ last ∷ [])
      → IsApart same n front × (same last.first n.first ≡ false)
  IsApart-last n [] last (_, key, _) = (tt, key)
  IsApart-last n (m ∷ front) last (number, key, a) =
      let (further, off) = IsApart-last n front last a in ((number, key, further), off)

  pub IsDistinct-last :
      (front : List (Node K V)) (last : Node K V)
      → IsDistinct same (front ++ last ∷ [])
      → IsDistinct same front
  IsDistinct-last [] last d = tt
  IsDistinct-last (n ∷ front) last (a, d) =
      ((IsApart-last n front last a).0, IsDistinct-last front last d)

module _ {ℓ} {K V : Type ℓ} (same : K → K → Bool) (sound : (a b : K) → same a b ≡ true → a ≡ b)
    (known : (a : K) → same a a ≡ true) where
  pub seek-last :
      (front : List (Node K V)) (last : Node K V) (k : K)
      → IsDistinct same (front ++ last ∷ [])
      → (if same last.first k then none else seek same (front ++ last ∷ []) k) ≡ seek same front k
  seek-last [] last k d = elim (Bool-cases (same last.first k)) [
    | inl hit ↦ rw hit
    | inr miss ↦ rw miss
  ]
  seek-last (n ∷ front) last k (a, d) =
      let off = (IsApart-last same n front last a).1 in
      elim (Bool-cases (same n.first k)) [
        | inl hit ↦
            let apart : same last.first k ≡ false =
              ap (same last.first) (sym (sound n.first k hit)) ∙ off in
            rw (apart, hit)
        | inr miss ↦ rw miss (seek-last front last k d)
      ]
