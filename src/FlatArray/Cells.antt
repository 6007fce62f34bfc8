-- ===== src/FlatArray/Cells.antt =====
-- What the array of src/base/types/flat-array.h holds after a resize and after a write.
use yscript.Prelude.{
  ℕ, zero, suc, ◌-◌, ◌<◌, ◌≡◌, refl, ◌∙◌, List, [], ◌∷◌, ◌++◌, Bool, true, false, not, Option, none,
  some, arith, inl, inr, ◌==◌, ltb, if◌then◌else◌, if_elim, Bool-cases, length, get_elem?, ltb→lt,
  take, replicate, length-append, length-take, length-replicate, ltb→lt,
}
use yscript.FlatArray.{FlatArray, clear, resize, at}

-- The block has as many cells as the array has elements.
abbrev pub IsValid {ℓ} : {T : Type ℓ} → FlatArray T → Type 0
IsValid a = elim a.contents [ none ↦ a.size ≡ 0 | some cells ↦ length cells ≡ a.size ]

module _ {ℓ} {T : Type ℓ} where
  get_elem?-replicate : (n i : ℕ) (x : T) → i < n → get_elem? (replicate n x) i ≡ some x
  get_elem?-replicate zero i x h = absurd (omega arith)
  get_elem?-replicate (suc n) zero x h = refl
  get_elem?-replicate (suc n) (suc i) x h = get_elem?-replicate n i x (omega arith)

  get_elem?-take : (n i : ℕ) (xs : List T) → i < n → get_elem? (take n xs) i ≡ get_elem? xs i
  get_elem?-take zero i xs h = absurd (omega arith)
  get_elem?-take (suc n) i [] h = refl
  get_elem?-take (suc n) zero (x ∷ xs) h = refl
  get_elem?-take (suc n) (suc i) (x ∷ xs) h = get_elem?-take n i xs (omega arith)

  get_elem?-append :
      (xs ys : List T) (i : ℕ)
      → get_elem? (xs ++ ys) i
        ≡ (if ltb i (length xs) then get_elem? xs i else get_elem? ys (i - length xs))
  get_elem?-append [] ys i = ground arith
  get_elem?-append (x ∷ xs) ys zero = ground arith
  get_elem?-append (x ∷ xs) ys (suc i) = ground (arith, get_elem?-append xs ys i)

  module _ (zero_cell unset : T) (size : ℕ) (cells : List T) where
    abbrev widened : List T
    widened = take size (cells ++ replicate (size - length cells) unset)

    length-widened : length widened ≡ size
    length-widened = omega (
      arith,
      length-take size (cells ++ replicate (size - length cells) unset),
      length-append cells (replicate (size - length cells) unset),
      length-replicate (size - length cells) unset,
    )

    widened-old : (i : ℕ) → i < length cells → i < size → get_elem? widened i ≡ get_elem? cells i
    widened-old i h hs =
        let inside : ltb i (length cells) ≡ true = ground arith in
        get_elem?-take size i (cells ++ replicate (size - length cells) unset) hs
        ∙ get_elem?-append cells (replicate (size - length cells) unset) i
        ∙ rw inside refl

    -- The cells of a block that has grown, behind the old ones filled with zeros.
    grown-lem :
        (i : ℕ)
        → length cells < size
        → i < size
        → get_elem? (take (length cells) widened ++ replicate (size - length cells) zero_cell) i
          ≡ (if ltb i (length cells) then get_elem? cells i else some zero_cell)
    grown-lem i more h =
        let front : length (take (length cells) widened) ≡ length cells =
          omega (arith, length-take (length cells) widened, length-widened) in
        get_elem?-append (take (length cells) widened) (replicate (size - length cells) zero_cell) i
        ∙ elim (Bool-cases (ltb i (length cells))) [
          | inl old ↦
              rw (front, old)
                (get_elem?-take (length cells) i widened (ground arith)
                  ∙ widened-old i (ground arith) h)
          | inr new ↦
              rw (front, new)
                (get_elem?-replicate (size - length cells) (i - length cells) zero_cell
                  (ground arith))
        ]

    -- The block that `resize` leaves, the old one having `n` cells.
    abbrev pub filled : ℕ → List T
    filled n = if ltb n size then take n widened ++ replicate (size - n) zero_cell else widened

    module _ (n : ℕ) (e : length cells ≡ n) where
      pub length-filled : length (filled n) ≡ size
      length-filled =
          if_elim (λ (xs : List T). length xs ≡ size) (ltb n size)
            (λ grows. omega (
              ltb→lt n size grows,
              arith,
              length-append (take n widened) (replicate (size - n) zero_cell),
              length-take n widened,
              length-widened,
              length-replicate (size - n) zero_cell,
            ))
            (λ _. length-widened)

      pub get_elem?-filled :
          (i : ℕ)
          → i < size
          → get_elem? (filled n) i ≡ (if ltb i n then get_elem? cells i else some zero_cell)
      get_elem?-filled i h = elim (Bool-cases (ltb n size)) [
        | inl grows ↦ rw (grows, ← e) (grown-lem i (ground arith) h)
        | inr stays ↦
            let inside : ltb i n ≡ true = ground arith in
            rw (stays, inside) (widened-old i (ground arith) h)
      ]

module _ {ℓ} {T : Type ℓ} (of_byte : ℕ → T) (unset : T) (allocates : ℕ → Bool) where
  abbrev array : Option (List T) → ℕ → T → FlatArray T
  array contents size end = record { contents = contents; size = size; end = end }

  -- What an array has at an index after a resize.
  abbrev pub resized_at : ℕ → FlatArray T → ℕ → Option T
  resized_at size a i =
      if size == 0
      then some (a.end)
      else if not (allocates size)
      then at a i
      else if not (ltb i size)
      then some (a.end)
      else if ltb i a.size
      then at a i
      else some (of_byte 0)

  -- Within the old size the array has its cells.
  within_lem :
      (cells : List T) (n : ℕ) (e : T) (i : ℕ)
      → (if ltb i n then get_elem? cells i else some (of_byte 0))
        ≡ (if ltb i n then at (array (some cells) n e) i else some (of_byte 0))
  unfolding at
  within_lem cells n e i = elim (Bool-cases (ltb i n)) [
    | inl old ↦ rw old refl
    | inr new ↦ rw new refl
  ]

  resize_cells :
      (cells : List T) (n : ℕ) (e : T) (size i : ℕ)
      → length cells ≡ n
      → IsValid (resize of_byte unset allocates size (array (some cells) n e))
        × (at (resize of_byte unset allocates size (array (some cells) n e)) i
            ≡ resized_at size (array (some cells) n e) i)
  unfolding resize clear at
  resize_cells cells n e size i valid = elim (Bool-cases (size == 0)) [
    | inl none_left ↦ rw none_left (refl, ground arith)
    | inr some_left ↦ elim (Bool-cases (allocates size)) [
      | inr fails ↦ rw (some_left, fails) (valid, refl)
      | inl has ↦
          rw (some_left, has)
            (
              length-filled (of_byte 0) unset size cells n valid,
              elim (Bool-cases (ltb i size)) [
                | inl inside ↦ rw inside (
                    get_elem?-filled (of_byte 0) unset size cells n valid i (ground arith)
                    ∙ within_lem cells n e i)
                | inr beyond ↦ rw beyond refl
              ],
            )
    ]
  ]

  resize_nothing :
      (e : T) (size i : ℕ)
      → IsValid (resize of_byte unset allocates size (array none 0 e))
        × (at (resize of_byte unset allocates size (array none 0 e)) i
            ≡ resized_at size (array none 0 e) i)
  unfolding resize clear at
  resize_nothing e size i = elim (Bool-cases (size == 0)) [
    | inl none_left ↦ rw none_left (refl, ground arith)
    | inr some_left ↦ elim (Bool-cases (allocates size)) [
      | inr fails ↦ rw (some_left, fails) (refl, refl)
      | inl has ↦
          let grows : ltb 0 size ≡ true = ground arith in
          let old : ltb i 0 ≡ false = ground arith in
          rw (some_left, has, grows, old)
            (
              length-replicate (size - 0) (of_byte 0) ∙ omega arith,
              elim (Bool-cases (ltb i size)) [
                | inl inside ↦
                    rw inside (get_elem?-replicate (size - 0) i (of_byte 0) (ground arith))
                | inr beyond ↦ rw beyond refl
              ],
            )
    ]
  ]

  -- A resize of a well formed array leaves a well formed one. With no memory for the new size it is the old one; a resize
  -- to 0 leaves no element; else the elements below both sizes stay, those behind the old size are 0, and every index
  -- behind the new size is the end cell, which stays too.
  pub at-resize :
      (a : FlatArray T) (size i : ℕ)
      → IsValid a
      → IsValid (resize of_byte unset allocates size a)
        × (at (resize of_byte unset allocates size a) i ≡ resized_at size a i)
  at-resize a size i valid = by_contents (a.contents) (a.size) valid
    where
      by_contents :
          (contents : Option (List T)) (n : ℕ)
          → IsValid (array contents n (a.end))
          → IsValid (resize of_byte unset allocates size (array contents n (a.end)))
            × (at (resize of_byte unset allocates size (array contents n (a.end))) i
                ≡ resized_at size (array contents n (a.end)) i)
      by_contents none n e = rw e (resize_nothing (a.end) size i)
      by_contents (some cells) n e = resize_cells cells n (a.end) size i e
