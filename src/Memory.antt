-- ===== src/Memory.antt =====
-- The objects in memory, their allocation, and the interning of strings (src/common/ysobject.h and
-- src/common/ysobject.cc). An address is the index of an object in the list of the objects that
-- have been allocated. The bytes that `reallocate` counts, and so the collector, are left out.
pub mod Interning
pub mod Keys
use Prim.Native.Nat.{bit_xor}
use yscript.Prelude.{
  ℕ, suc, ◌+◌, ◌*◌, ◌%◌, ◌^◌, List, [], ◌∷◌, ◌++◌, Bool, true, false, Option, none, some, length,
  get_elem?, get_or, set, take, drop, replicate,
}
use yscript.Prelude.Bytes.{Bytes}
use yscript.Value.{Ptr, Value, nil, ObjString, Table}
use yscript.Chunk.{Chunk, init_chunk}
use yscript.Table.{init_table, table_set, table_find_string, ◌>>=◌}

pub record ObjFunction : Type 0 where
  pub arity : ℕ
  pub upvalue_count : ℕ
  pub chunk : Chunk
  pub name : Option Ptr

-- `location` of an upvalue: a slot of the stack, or its own field `closed`.
pub data Location : Type 0 where
  slot : ℕ → Location
  own : Location

-- The `ObjType`s with the fields of their structures; a native function is its number.
pub data Obj : Type 0 where
  bound_method : (receiver : Value) → (method : Ptr) → Obj
  class : (name : Ptr) → (methods : Table) → Obj
  closure : (function : Ptr) → (upvalues : List (Option Ptr)) → Obj
  function : ObjFunction → Obj
  instance_of : (klass : Ptr) → (fields : Table) → Obj
  native : ℕ → Obj
  string : ObjString → Obj
  upvalue : (location : Location) → (closed : Value) → (next : Option Ptr) → Obj

-- The parts of `VM` that the compiler and the objects use.
pub record Memory : Type 0 where
  pub objects : List Obj
  pub strings : Table

unfoldable pub allocate_object : Obj → Memory → Ptr × Memory
allocate_object object m = (length m.objects, record m { objects = m.objects ++ object ∷ [] })

unfoldable pub new_bound_method : Value → Ptr → Memory → Ptr × Memory
unfolding allocate_object
new_bound_method receiver method = allocate_object (bound_method receiver method)

unfoldable pub new_class : Ptr → Memory → Ptr × Memory
unfolding allocate_object init_table
new_class name = allocate_object (class name init_table)

unfoldable pub new_closure : Ptr → (upvalue_count : ℕ) → Memory → Ptr × Memory
unfolding allocate_object
new_closure f upvalue_count = allocate_object (closure f (replicate upvalue_count none))

unfoldable pub new_function : Memory → Ptr × Memory
unfolding allocate_object init_chunk
new_function =
    allocate_object
      (function (record { arity = 0; upvalue_count = 0; chunk = init_chunk; name = none }))

unfoldable pub new_instance : Ptr → Memory → Ptr × Memory
unfolding allocate_object init_table
new_instance klass = allocate_object (instance_of klass init_table)

unfoldable pub new_native : ℕ → Memory → Ptr × Memory
unfolding allocate_object
new_native f = allocate_object (native f)

unfoldable pub new_upvalue : ℕ → Memory → Ptr × Memory
unfolding allocate_object
new_upvalue location = allocate_object (upvalue (slot location) nil none)

abbrev no_string : ObjString
no_string = record { length = 0; chars = []; hash = 0 }

abbrev pub as_string : Option Obj → ObjString
as_string (some (string s)) = s
as_string _ = no_string

-- `AS_STRING` of an object that is a string.
unfoldable pub string_at : Memory → Ptr → ObjString
string_at m p = as_string (get_elem? m.objects p)

unfoldable pub hash_loop : Bytes → ℕ → ℕ
hash_loop [] hash = hash
hash_loop (c ∷ key) hash = hash_loop key (bit_xor hash c * 16777619 % 2 ^ 32)

unfoldable pub hash_string : Bytes → ℕ
unfolding hash_loop
hash_string key = hash_loop key 2166136261

unfoldable pub allocate_string : Bytes → ℕ → Memory → Option (Ptr × Memory)
unfolding allocate_object string_at table_set
allocate_string chars hash m =
    let (p, m₁) =
      allocate_object (string (record { length = length chars; chars = chars; hash = hash })) m in
    do
      (_, strings) ← table_set (string_at m₁) m₁.strings p nil
      some (p, record m₁ { strings = strings })

-- `copyString` and `takeString`, which differ in who owns the buffer: the string with these bytes,
-- the one that is there if the bytes have been interned before.
unfoldable pub copy_string : Bytes → Memory → Option (Ptr × Memory)
unfolding hash_string allocate_string string_at table_find_string
copy_string chars m = do
  let hash = hash_string chars
  interned ← table_find_string (string_at m) m.strings chars (length chars) hash
  elim interned [ some p ↦ some (p, m) | none ↦ allocate_string chars hash m ]
