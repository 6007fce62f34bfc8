-- ===== src/Chunk/Contents.antt =====
-- What a chunk holds (`writeChunk` and `addConstant` of src/common/chunk.cc): the written bytes, lines
-- and constants in order, whatever the capacities.
use yscript.Prelude.{
  get_elem?-append_end, ℕ, zero, suc, ◌+◌, ◌-◌, ◌≤◌, ◌<◌, ◌≡◌, refl, ap, ◌∙◌, List, [], ◌∷◌, ◌++◌,
  arith, ltb, if◌then◌else◌, length, length-append, length-take, length-replicate, set, length-set,
  take, get_elem?, some, inl, inr, Bool-cases,
}
use yscript.Value.{Value, nil, grow_capacity}
use yscript.Chunk.{
  ValueArray, Chunk, grow_array, init_chunk, write_value_array, write_chunk, add_constant,
}

module _ {ℓ} {A : Type ℓ} where
  length-grow_array :
      (unset : A) (xs : List A) (n : ℕ) → length xs ≤ n → length (grow_array unset xs n) ≡ n
  unfolding grow_array
  length-grow_array unset xs n h = rw (length-append, length-replicate) (omega arith)

  take-append : (n : ℕ) (xs ys : List A) → n ≤ length xs → take n (xs ++ ys) ≡ take n xs
  take-append zero xs ys h = refl
  take-append (suc n) [] ys h = absurd (omega arith)
  take-append (suc n) (x ∷ xs) ys h = ap (λ l. x ∷ l) (take-append n xs ys (omega arith))

  take-set :
      (n : ℕ) (xs : List A) (v : A)
      → n < length xs
      → take (suc n) (set xs n v) ≡ take n xs ++ v ∷ []
  take-set n [] v h = absurd (omega arith)
  take-set zero (x ∷ xs) v h = refl
  take-set (suc n) (x ∷ xs) v h = ap (λ l. x ∷ l) (take-set n xs v (omega arith))

  take-grow_array :
      (unset : A) (xs : List A) (n m : ℕ)
      → n ≤ length xs
      → take n (grow_array unset xs m) ≡ take n xs
  unfolding grow_array
  take-grow_array unset xs n m h = take-append n xs _ h

  -- A write behind the first `n` cells of an array that is grown first when it is full.
  pub push_cell :
      (unset : A) (cells : List A) (n capacity : ℕ) (v : A)
      → length cells ≡ capacity
      → n ≤ capacity
      → let grows = ltb capacity (n + 1) in
        let capacity' = if grows then grow_capacity capacity else capacity in
        let cells' = set (if grows then grow_array unset cells capacity' else cells) n v in
        (length cells' ≡ capacity')
        × (n + 1 ≤ capacity')
        × (take (n + 1) cells' ≡ take n cells ++ v ∷ [])
  push_cell unset cells n capacity v size h =
      let e : n + 1 ≡ suc n = omega arith in
      elim (Bool-cases (ltb capacity (n + 1))) [
        | inr roomy ↦
            rw (roomy, e)
              (length-set cells n v ∙ size, ground arith, take-set n cells v (ground arith))
        | inl full ↦
            let wider : length cells ≤ grow_capacity capacity = ground arith in
            let size' = length-grow_array unset cells (grow_capacity capacity) wider in
            let room : n < length (grow_array unset cells (grow_capacity capacity)) =
              ground (arith, size') in
            rw (full, e)
              (
                length-set _ n v ∙ size',
                ground arith,
                take-set n _ v room
                    ∙ ap (λ l. l ++ v ∷ [])
                        (take-grow_array unset cells n (grow_capacity capacity)
                          (omega (arith, size))),
              )
      ]

pub record IsSound (a : ValueArray) : Type 0 where
  pub size : length a.values ≡ a.capacity
  pub fits : a.count ≤ a.capacity

-- The two arrays of a chunk have one capacity, and the count is within it.
pub record IsValid (c : Chunk) : Type 0 where
  pub code : length c.code ≡ c.capacity
  pub lines : length c.lines ≡ c.capacity
  pub fits : c.count ≤ c.capacity
  pub constants : IsSound c.constants

pub init_chunk-IsValid : IsValid init_chunk
unfolding init_chunk
init_chunk-IsValid = record {
  code = refl;
  lines = refl;
  fits = omega arith;
  constants = record { size = refl; fits = omega arith };
}

-- What has been written: the bytes, the lines of the bytes, and the constants.
abbrev pub bytes_of : Chunk → List ℕ
bytes_of c = take c.count c.code

abbrev pub lines_of : Chunk → List ℕ
lines_of c = take c.count c.lines

abbrev pub constants_of : Chunk → List Value
constants_of c = take c.constants.count c.constants.values

pub length-bytes_of : (c : Chunk) → IsValid c → length (bytes_of c) ≡ c.count
length-bytes_of c v = omega (arith, length-take c.count c.code, v.code, v.fits)

-- `writeChunk` appends the byte and its line, keeps the constants, and leaves the chunk well formed,
-- whether it grows the arrays or not.
pub write_chunk-append :
    (c : Chunk) (byte line : ℕ)
    → IsValid c
    → IsValid (write_chunk c byte line)
      × (bytes_of (write_chunk c byte line) ≡ bytes_of c ++ byte ∷ [])
      × (lines_of (write_chunk c byte line) ≡ lines_of c ++ line ∷ [])
      × (constants_of (write_chunk c byte line) ≡ constants_of c)
unfolding write_chunk
write_chunk-append c byte line v =
    let (size, fits, text) = push_cell 0 c.code c.count c.capacity byte v.code v.fits in
    let (size', _, text') = push_cell 0 c.lines c.count c.capacity line v.lines v.fits in
    (record { code = size; lines = size'; fits = fits; constants = v.constants }, text, text', refl)

length-take_all : (n : ℕ) (xs : List Value) → n ≤ length xs → length (take n xs) ≡ n
length-take_all n xs h = omega (arith, length-take n xs)

-- `addConstant` appends the value to the constants and answers the index at which it stands; the code
-- stays as it was.
pub add_constant-append :
    (c : Chunk) (value : Value)
    → IsValid c
    → IsValid (add_constant c value).1
      × (constants_of (add_constant c value).1 ≡ constants_of c ++ value ∷ [])
      × (get_elem? (constants_of (add_constant c value).1) (add_constant c value).0 ≡ some value)
      × (bytes_of (add_constant c value).1 ≡ bytes_of c)
unfolding add_constant write_value_array
add_constant-append c value v =
    let a = c.constants in
    let (size, fits, text) =
      push_cell nil a.values a.count a.capacity value v.constants.size v.constants.fits in
    let index : a.count + 1 - 1 ≡ length (take a.count a.values) = omega (
      arith,
      length-take_all a.count a.values (omega (arith, v.constants.size, v.constants.fits)),
    ) in
    (
      record {
        code = v.code;
        lines = v.lines;
        fits = v.fits;
        constants = record { size = size; fits = fits };
      },
      text,
      rw (text, index) (get_elem?-append_end (take a.count a.values) value),
      refl,
    )
