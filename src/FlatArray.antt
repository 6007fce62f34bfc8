-- ===== src/FlatArray.antt =====
-- The array of src/base/types/flat-array.h. Its block of memory is a list of cells, and `nullptr` is
-- `none`. That `malloc`, `calloc` and `realloc` have memory for so many elements is a parameter.
pub mod Cells
use yscript.Prelude.{
  ℕ, ◌-◌, ◌%◌, List, ◌++◌, Bool, Option, none, some, ◌==◌, ltb, if◌then◌else◌, length, get_elem?,
  set, take, replicate,
}

pub record FlatArray {ℓ} (T : Type ℓ) : Type ℓ where
  pub contents : Option (List T)
  pub size : ℕ
  pub end : T

module _ {ℓ} {T : Type ℓ} where
  unfoldable pub clear : FlatArray T → FlatArray T
  clear a = elim a.contents [ none ↦ a | some cells ↦ record a { contents = none; size = 0 } ]

-- `of_byte` is the element with this byte in each of its bytes, and `unset` stands for whatever is in new
-- memory.
module _ {ℓ} {T : Type ℓ} (of_byte : ℕ → T) (unset : T) (allocates : ℕ → Bool) where
  -- `FlatArray(size)`
  unfoldable pub create : ℕ → FlatArray T
  create size =
      if allocates size
      then record { contents = some (replicate size unset); size = size; end = unset }
      else record { contents = none; size = 0; end = unset }

  -- `FlatArray(size, ch)`: `memset` takes the low byte of `ch`.
  unfoldable pub create_filled : (size ch : ℕ) → FlatArray T
  create_filled size ch =
      let byte = if ch == 0 then 0 else ch % 256 in
      if allocates size
      then record { contents = some (replicate size (of_byte byte)); size = size; end = unset }
      else record { contents = none; size = 0; end = unset }

  -- The new block of a copy: where the other array has none, its cells stay as they are.
  abbrev pub copied : FlatArray T → List T
  copied rhs = elim rhs.contents [
    | none ↦ replicate rhs.size unset
    | some cells ↦ take rhs.size cells
  ]

  -- The copy constructor.
  unfoldable pub copy : FlatArray T → FlatArray T
  copy rhs =
      if allocates rhs.size
      then record { contents = some (copied rhs); size = rhs.size; end = unset }
      else record { contents = none; size = 0; end = unset }

  -- `operator=`; `itself` says that both are one object.
  unfoldable pub assign : (itself : Bool) → FlatArray T → FlatArray T → FlatArray T
  unfolding clear
  assign itself a rhs =
      let a' = clear a in
      if itself
      then a
      else if allocates rhs.size
      then record a' { contents = some (copied rhs); size = rhs.size }
      else record a' { contents = none; size = 0 }

  -- `realloc`: the old cells as far as they fit, and new ones.
  abbrev pub reallocated : Option (List T) → ℕ → List T
  reallocated none size = replicate size unset
  reallocated (some cells) size = take size (cells ++ replicate (size - length cells) unset)

  unfoldable pub resize : ℕ → FlatArray T → FlatArray T
  unfolding clear
  resize size a =
      let cells = reallocated a.contents size in
      let filled =
        if ltb a.size size
        then take a.size cells ++ replicate (size - a.size) (of_byte 0)
        else cells in
      if size == 0
      then clear a
      else if allocates size
      then record a { contents = some filled; size = size }
      else a

module _ {ℓ} {T : Type ℓ} where
  abbrev pub cells_of : Option (List T) → ℕ → Option T
  cells_of none i = none
  cells_of (some cells) i = get_elem? cells i

  -- `at` and `operator[]`, read.
  unfoldable pub at : FlatArray T → ℕ → Option T
  at a index = if ltb index a.size then cells_of a.contents index else some (a.end)

  -- A write through the reference that `at` and `operator[]` return.
  unfoldable pub store : FlatArray T → ℕ → T → FlatArray T
  store a index value =
      if ltb index a.size
      then record a {
        contents = elim a.contents [ none ↦ none | some cells ↦ some (set cells index value) ];
      }
      else record a { end = value }

  unfoldable pub empty : FlatArray T → Bool
  empty a = a.size == 0
