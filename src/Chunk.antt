-- ===== src/Chunk.antt =====
-- Growable arrays (`ValueArray` of src/common/ysvalue.cc and `Chunk` of src/common/chunk.cc).
-- An array is a list of its `capacity` cells; the cells that `realloc` adds hold `unset`, a value
-- that stands for whatever is there. That memory can run out (`exit(1)`) is left out.
pub mod Contents
use yscript.Prelude.{
  ℕ, ◌+◌, ◌-◌, List, [], ◌++◌, Bool, true, false, Option, none, ltb, if◌then◌else◌, length, set,
  replicate,
}
use yscript.Value.{Ptr, Value, nil, grow_capacity}

pub record ValueArray : Type 0 where
  pub capacity : ℕ
  pub count : ℕ
  pub values : List Value

pub record Chunk : Type 0 where
  pub count : ℕ
  pub capacity : ℕ
  pub code : List ℕ
  pub lines : List ℕ
  pub constants : ValueArray

-- `GROW_ARRAY`: the old cells, and new ones up to the new capacity.
unfoldable pub grow_array {ℓ} : {A : Type ℓ} → A → List A → ℕ → List A
grow_array unset cells capacity = cells ++ replicate (capacity - length cells) unset

unfoldable pub init_value_array : ValueArray
init_value_array = record { capacity = 0; count = 0; values = [] }

unfoldable pub write_value_array : ValueArray → Value → ValueArray
unfolding grow_array
write_value_array array value =
    let grows = ltb array.capacity (array.count + 1) in
    let capacity = if grows then grow_capacity array.capacity else array.capacity in
    let values = if grows then grow_array nil array.values capacity else array.values in
    record { capacity = capacity; count = array.count + 1; values = set values array.count value }

unfoldable pub init_chunk : Chunk
unfolding init_value_array
init_chunk = record { count = 0; capacity = 0; code = []; lines = []; constants = init_value_array }

unfoldable pub write_chunk : Chunk → ℕ → ℕ → Chunk
unfolding grow_array
write_chunk chunk byte line =
    let grows = ltb chunk.capacity (chunk.count + 1) in
    let capacity = if grows then grow_capacity chunk.capacity else chunk.capacity in
    let code = if grows then grow_array 0 chunk.code capacity else chunk.code in
    let lines = if grows then grow_array 0 chunk.lines capacity else chunk.lines in
    record chunk {
      count = chunk.count + 1;
      capacity = capacity;
      code = set code chunk.count byte;
      lines = set lines chunk.count line;
    }

-- The `push` and `pop` around the write only shield the value from the collector.
unfoldable pub add_constant : Chunk → Value → ℕ × Chunk
unfolding write_value_array
add_constant chunk value =
    let constants = write_value_array chunk.constants value in
    (constants.count - 1, record chunk { constants = constants })
