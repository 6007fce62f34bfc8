-- ===== src/Interp/Keeps/Heap.antt =====
-- What the interpreter (src/vm/interp/interp.cc) never changes of an object that there is.
use mathlib.Core.List.{append-nil, append_assoc}
use yscript.Prelude.{
  ℕ, zero, suc, Bool, ◌≡◌, refl, sym, ap, ◌∙◌, List, [], ◌∷◌, ◌++◌, Option, none, some, length,
  get_elem?, set, map, replicate,
}
use yscript.Prelude.Bytes.{Bytes}
use yscript.Table.{◌>>=◌}
use yscript.Value.{Ptr, nil, Table}
use yscript.Memory.{
  Obj, bound_method, class, closure, function, instance_of, native, string, upvalue, own, Memory,
  hash_string, allocate_string, copy_string,
}

abbrev pub no_entries : Table
no_entries = record { count = 0; capacity = 0; entries = [] }

-- An object without what instructions write: the methods of a class, the captured upvalues of a closure,
-- the fields of an instance, and all of an upvalue.
abbrev pub fixed : Obj → Obj
fixed (class name methods) = class name no_entries
fixed (closure f upvalues) = closure f (replicate (length upvalues) none)
fixed (instance_of klass fields) = instance_of klass no_entries
fixed (upvalue location closed next) = upvalue own nil none
fixed (bound_method receiver method) = bound_method receiver method
fixed (function f) = function f
fixed (native n) = native n
fixed (string s) = string s

-- The objects that were there are there still, apart from what is written, and others may be behind them.
pub record Grown (old new : List Obj) : Type 0 where
  pub added : List Obj
  pub kept : map fixed new ≡ map fixed old ++ added

pub Grown-same : {old new : List Obj} → map fixed new ≡ map fixed old → Grown old new
Grown-same {old} e = record { added = []; kept = e ∙ sym (append-nil (map fixed old)) }

pub Grown-trans : {a b c : List Obj} → Grown a b → Grown b c → Grown a c
Grown-trans {a} g h = record {
  added = g.added ++ h.added;
  kept = h.kept ∙ ap (λ xs. xs ++ h.added) g.kept ∙ append_assoc (map fixed a) (g.added) (h.added);
}

map-append : (xs ys : List Obj) → map fixed (xs ++ ys) ≡ map fixed xs ++ map fixed ys
map-append [] ys = refl
map-append (x ∷ xs) ys = ap (◌∷◌ (fixed x)) (map-append xs ys)

pub Grown-append : (xs ys : List Obj) → Grown xs (xs ++ ys)
Grown-append xs ys = record { added = map fixed ys; kept = map-append xs ys }

module _ {ℓ} {A : Type ℓ} where
  pub get_elem?-prefix :
      (xs ys : List A) (i : ℕ) {a : A} → get_elem? xs i ≡ some a → get_elem? (xs ++ ys) i ≡ some a
  get_elem?-prefix [] ys i e = absurd (cc e)
  get_elem?-prefix (x ∷ xs) ys zero e = e
  get_elem?-prefix (x ∷ xs) ys (suc i) e = get_elem?-prefix xs ys i e

-- What is known of the object at an address.
abbrev pub KnownAs : List Obj → Ptr → Obj → Type 0
KnownAs objects p o = get_elem? (map fixed objects) p ≡ some o

pub KnownAs-Grown :
    {old new : List Obj} (p : Ptr) {o : Obj} → KnownAs old p o → Grown old new → KnownAs new p o
KnownAs-Grown {old} p e g =
    ap (λ xs. get_elem? xs p) (g.kept) ∙ get_elem?-prefix (map fixed old) (g.added) p e

pub KnownAs-read :
    (objects : List Obj) (p : Ptr) {o : Obj}
    → get_elem? objects p ≡ some o
    → KnownAs objects p (fixed o)
KnownAs-read [] p e = absurd (cc e)
KnownAs-read (x ∷ objects) zero e = cc e
KnownAs-read (x ∷ objects) (suc p) e = KnownAs-read objects p e

-- A write that agrees with what is known of the object.
pub map-set :
    (objects : List Obj) (p : Ptr) (o : Obj)
    → KnownAs objects p (fixed o)
    → map fixed (set objects p o) ≡ map fixed objects
map-set [] p o e = refl
map-set (x ∷ objects) zero o e = cc e
map-set (x ∷ objects) (suc p) o e = ap (◌∷◌ (fixed x)) (map-set objects p o e)

abbrev objects_of : Option (Ptr × Memory) → List Obj
objects_of none = []
objects_of (some (p, m)) = m.objects

-- A new string is behind the objects, and nothing else changes; nor does anything for a string that
-- there is.
abbrev pub Appends : List Obj → List Obj → Type 0
Appends old new = (added : List Obj) × (new ≡ old ++ added)

pub Appends-Grown : {old new : List Obj} → Appends old new → Grown old new
Appends-Grown {old} (added, e) =
    let g = Grown-append old added in record { added = g.added; kept = ap (map fixed) e ∙ g.kept }

module _ (m : Memory) where
  entered-same :
      (added : List Obj) (q : Ptr) (set : Option (Bool × Table)) {p : Ptr} {m' : Memory}
      → ◌>>=◌ {B = Ptr × Memory} set
          (λ (r : Bool × Table). some (q, record m { objects = added; strings = r.1 }))
        ≡ some (p, m')
      → m'.objects ≡ added
  entered-same added q none e = absurd (cc e)
  entered-same added q (some (is_new, strings)) e = sym (ap objects_of e)

  allocate_string-Appends :
      (chars : Bytes) (hash : ℕ) {p : Ptr} {m' : Memory}
      → allocate_string chars hash m ≡ some (p, m')
      → Appends m.objects m'.objects
  unfolding allocate_string
  allocate_string-Appends chars hash e =
      let new = string (record { length = length chars; chars = chars; hash = hash }) in
      (new ∷ [], entered-same (m.objects ++ new ∷ []) (length m.objects) _ e)

  found-Appends :
      (chars : Bytes) (hash : ℕ) (interned : Option (Option Ptr)) {p : Ptr} {m' : Memory}
      → ◌>>=◌ {B = Ptr × Memory} interned (λ (i : Option Ptr). elim i [
        | some q ↦ some (q, m)
        | none ↦ allocate_string chars hash m
      ])
        ≡ some (p, m')
      → Appends m.objects m'.objects
  found-Appends chars hash none e = absurd (cc e)
  found-Appends chars hash (some none) e = allocate_string-Appends chars hash e
  found-Appends chars hash (some (some q)) e =
      ([], sym (ap objects_of e) ∙ sym (append-nil m.objects))

  pub copy_string-Appends :
      (chars : Bytes) {p : Ptr} {m' : Memory}
      → copy_string chars m ≡ some (p, m')
      → Appends m.objects m'.objects
  unfolding copy_string
  copy_string-Appends chars e = found-Appends chars (hash_string chars) _ e
