-- ===== src/Value.antt =====
-- Values and the data of the objects (src/common/ysvalue.h, ysvalue.cc, ysobject.h, hashtable.h).
-- The build does not define ENABLE_NAN_TAGGING, so a value is the tagged union.
use yscript.Prelude.{ℕ, ◌*◌, List, Bool, true, false, not, Option, ◌==◌, ltb, if◌then◌else◌}
use yscript.Prelude.Bytes.{Bytes}

-- An address; `NULL` is `none` of an `Option Ptr`.
abbrev pub Ptr : Type 0
Ptr = ℕ

-- A double is its 64 bits. Arithmetic and comparison of doubles are the hardware's.
pub data Value : Type 0 where
  bool : Bool → Value
  nil : Value
  number : ℕ → Value
  obj : Ptr → Value

abbrev pub is_nil : Value → Bool
is_nil nil = true
is_nil _ = false

abbrev pub bool_eq : Bool → Bool → Bool
bool_eq true b = b
bool_eq false b = not b

-- `double_eq` is the comparison `==` of two doubles, of which a NaN is not equal to itself.
unfoldable pub values_equal : (double_eq : ℕ → ℕ → Bool) → Value → Value → Bool
values_equal double_eq (bool a) (bool b) = bool_eq a b
values_equal double_eq nil nil = true
values_equal double_eq (number a) (number b) = double_eq a b
values_equal double_eq (obj a) (obj b) = a == b
values_equal double_eq _ _ = false

-- What the table reads of a key: `length`, `chars` and `hash` of an `ObjString`.
pub record ObjString : Type 0 where
  pub length : ℕ
  pub chars : Bytes
  pub hash : ℕ

pub record Entry : Type 0 where
  pub key : Option Ptr
  pub value : Value

pub record Table : Type 0 where
  pub count : ℕ
  pub capacity : ℕ
  pub entries : List Entry

-- `GROW_CAPACITY` of src/common/memory.h
abbrev pub grow_capacity : ℕ → ℕ
grow_capacity capacity = if ltb capacity 8 then 8 else capacity * 2
