-- ===== src/Memory/Keys.antt =====
-- The table of strings (`vm.strings`) that src/common/ysobject.cc keeps: when it is well formed.
use yscript.Prelude.{
  ℕ, ◌<◌, ◌≡◌, refl, sym, ap, ◌∙◌, inl, inr, List, [], ◌∷◌, true, ◌&&◌, some, arith, ◌==◌, length,
  take,
}
use yscript.Prelude.Bytes.{Bytes, bytes_eq, bytes_eq_refl, bytes_eq→eq}
use yscript.Value.{Ptr, Value, ObjString, Entry}
use yscript.Table.{is_text}
use yscript.Table.View.{view, HasAt, IsPlaced, view-miss, HasAt-cases}
use yscript.Table.Map.{IsValid}
use yscript.Memory.{Memory, string_at, hash_string}

-- The address is a key of the table of strings.
pub record IsKey (m : Memory) (p : Ptr) : Type 0 where
  pub index : ℕ
  pub at : HasAt m.strings.entries p index

-- The table of strings is well formed, its keys are strings with their length and hash, and no two
-- keys have one text.
pub record IsInterned (m : Memory) : Type 0 where
  pub valid : IsValid (string_at m) m.strings
  pub allocated : (p : Ptr) → IsKey m p → p < length m.objects
  pub sized : (p : Ptr) → IsKey m p → (string_at m p).length ≡ length (string_at m p).chars
  pub hashed : (p : Ptr) → IsKey m p → (string_at m p).hash ≡ hash_string (string_at m p).chars
  pub distinct :
      (p q : Ptr) → IsKey m p → IsKey m q → (string_at m p).chars ≡ (string_at m q).chars → p ≡ q

take_all : (xs : Bytes) → take (length xs) xs ≡ xs
take_all [] = refl
take_all (x ∷ xs) = ap (λ l. x ∷ l) (take_all xs)

-- The tests of `tableFindString` on a string with its length `n` and its hash `h`.
module _ (n h : ℕ) (xs ys : Bytes) (size : n ≡ length xs) where
  tests-eq :
      ((n == length ys)
          && (h == hash_string ys)
          && bytes_eq (take (length ys) xs) (take (length ys) ys))
        ≡ true
      → xs ≡ ys
  tests-eq t =
      let e : length xs ≡ length ys = ground arith in
      let same : bytes_eq (take (length ys) xs) (take (length ys) ys) ≡ true = ground arith in
      sym (take_all xs)
      ∙ ap (λ k. take k xs) e
      ∙ bytes_eq→eq (take (length ys) xs) (take (length ys) ys) same
      ∙ take_all ys

  eq-tests :
      h ≡ hash_string xs
      → xs ≡ ys
      → ((n == length ys)
          && (h == hash_string ys)
          && bytes_eq (take (length ys) xs) (take (length ys) ys))
        ≡ true
  eq-tests hash e =
      let size' : (n == length ys) ≡ true = ground (arith, ap length e) in
      let hash' : (h == hash_string ys) ≡ true = ground (arith, ap hash_string e) in
      rw (size', hash', e) (bytes_eq_refl (take (length ys) ys))

module _ (m : Memory) (i : IsInterned m) (chars : Bytes) (p : Ptr) (k : IsKey m p) where
  pub is_text-eq :
      is_text (string_at m) chars (length chars) (hash_string chars) p ≡ true
      → (string_at m p).chars ≡ chars
  is_text-eq =
      tests-eq (string_at m p).length (string_at m p).hash (string_at m p).chars chars (i.sized p k)

  pub eq-is_text :
      (string_at m p).chars ≡ chars
      → is_text (string_at m) chars (length chars) (hash_string chars) p ≡ true
  eq-is_text =
      eq-tests (string_at m p).length (string_at m p).hash (string_at m p).chars chars (i.sized p k)
        (i.hashed p k)

-- The placing of keys depends on the hashes of the keys alone.
pub IsPlaced-agree :
    (f g : Ptr → ObjString) (es : List Entry) (capacity : ℕ)
    → ((q : Ptr) (i : ℕ) → HasAt es q i → (f q).hash ≡ (g q).hash)
    → IsPlaced f es capacity
    → IsPlaced g es capacity
IsPlaced-agree f g es capacity same p = record {
  size = p.size;
  unique = p.unique;
  reach = λ q i h.
      let (n, e, path) = p.reach q i h in
      (n, rw (← same q i h) e, λ l lt. rw (← same q i h) (path l lt));
}

pub HasAt_of-view :
    (es : List Entry) (q : Ptr) {v : Value} → view es q ≡ some v → (i : ℕ) × HasAt es q i
HasAt_of-view es q h = elim (HasAt-cases es q) [
  | inl k ↦ k
  | inr n ↦ absurd (cc (h, view-miss es q n))
]
