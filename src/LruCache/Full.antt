-- ===== src/LruCache/Full.antt =====
-- The order after the second half of `Put` of src/base/types/lru-cache.h.
use mathlib.Core.Path.{subst}
use yscript.Prelude.{
  ℕ, zero, suc, ◌≤◌, ◌<◌, ◌≡◌, refl, sym, ap, ◌∙◌, inl, inr, List, [], ◌∷◌, ◌++◌, Bool, true, none,
  some, arith, ltb, if◌then◌else◌, length, take, Bool-cases,
}
use yscript.LruCache.{LruCache, Node, pop_back, evict}
use yscript.LruCache.Nodes.{seek, IsDistinct, pairs, IsBelow}
use yscript.LruCache.Erased.{find-erase_key}
use yscript.LruCache.Evicted.{
  pop_back-last, length-last, take-last, IsBelow-last, IsDistinct-last, seek-last,
}
use yscript.LruCache.Ordered.{Ordered, length-listed}

take_whole {ℓ} : {A : Type ℓ} (n : ℕ) (xs : List A) → length xs ≤ n → take n xs ≡ xs
take_whole zero [] h = refl
take_whole (suc n) [] h = refl
take_whole zero (x ∷ xs) h = absurd (omega arith)
take_whole (suc n) (x ∷ xs) h = ap (λ xs. x ∷ xs) (take_whole n xs (omega (arith, h)))

popped_last {ℓ} :
    {K V : Type ℓ} (items : List (Node K V)) (m : ℕ)
    → length items ≡ suc m
    → (front : List (Node K V)) × (last : Node K V) × (pop_back items ≡ some (front, last))
      × (items ≡ front ++ last ∷ [])
popped_last [] m e = absurd (omega (arith, e))
popped_last (n ∷ rest) m e = pop_back-last n rest

module _ {ℓ} {K V : Type ℓ} (same : K → K → Bool) (sound : (a b : K) → same a b ≡ true → a ≡ b)
    (known : (a : K) → same a a ≡ true) (c : LruCache K V) (l : List (K × V))
    (o : Ordered same c l) where
  pub evict-Ordered :
      length l ≤ suc c.max_size
      → c.max_size < 18446744073709551615
      → Ordered same (evict same c) (take c.max_size l)
  unfolding evict
  evict-Ordered few fits = elim (Bool-cases (ltb c.max_size c.cur_size)) [
    | inl over ↦
        let full : length c.items_list ≡ suc c.max_size =
          ground (arith, length-listed same sound known c l o, o.counted, few, over) in
        let (front, last, popped, whole) = popped_last c.items_list c.max_size full in
        let all : IsDistinct same (front ++ last ∷ []) = subst (IsDistinct same) whole o.distinct in
        let rest : length front ≡ c.max_size =
          omega (arith, ap length whole, length-last front last, full) in
        rw (evict, over, popped)
          (record {
            distinct = IsDistinct-last same front last all;
            below = IsBelow-last c.nodes front last (subst (IsBelow c.nodes) whole o.below);
            indexed = λ k.
                find-erase_key same sound known c.items_indexing_map (last.first) k
                ∙ ap (λ found. if same last.first k then none else found)
                    (o.indexed k ∙ ap (λ items. seek same items k) whole)
                ∙ seek-last same sound known front last k all;
            listed =
                sym (take-last front last)
                ∙ ap (λ n. take n (pairs (front ++ last ∷ []))) rest
                ∙ ap (take c.max_size) (ap pairs (sym whole) ∙ o.listed);
            counted = omega (arith, o.counted, full, rest, fits);
          })
    | inr roomy ↦
        let whole : take c.max_size l ≡ l =
          take_whole c.max_size l
            (ground (arith, length-listed same sound known c l o, o.counted)) in
        rw (evict, roomy, whole) o
  ]
