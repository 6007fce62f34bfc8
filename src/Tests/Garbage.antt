-- ===== src/Tests/Garbage.antt =====
-- A run of the collector on a small memory.
use mathlib.Core.List.{Memᴰ}
use mathlib.Core.List.Memᴰ
use yscript.Prelude.{
  ℕ, zero, suc, ◌<◌, ◌≡◌, refl, List, [], ◌∷◌, Bool, true, false, Option, none, some, arith,
  get_elem?,
}
use yscript.Value.{Ptr, obj}
use yscript.Table.{init_table}
use yscript.Table.Map.{init_table-IsValid}
use yscript.Memory.{native, Obj, upvalue, own, instance_of, class, string}
use yscript.Interp.Chain.{end}
use yscript.Collector.{Collector, Sizes, collect_garbage, reallocate, track_object, free_vm}
use yscript.Collector.Trace.{root, step}
use yscript.Collector.Collect.{IsSound, Collected, InUse, collect_garbage-Collected}

abbrev pub sizes : Sizes
sizes = record {
  bound_method = 48;
  class = 48;
  closure = 40;
  function = 88;
  instance_of = 48;
  native = 24;
  string = 40;
  upvalue = 48;
  pointer = 8;
  entry = 24;
  int = 4;
  value = 16;
}

-- An instance on the stack holds its class, which holds its name; a cycle of two objects is lost.
abbrev memory_before : List Obj
memory_before =
    string (record { length = 1; chars = b'A' ∷ []; hash = 5 })
    ∷ class 0 (record { count = 0; capacity = 0; entries = [] })
    ∷ upvalue own (obj 3) none
    ∷ upvalue own (obj 2) none
    ∷ instance_of 1 (record { count = 0; capacity = 0; entries = [] })
    ∷ []

abbrev before : Collector
before = record {
  vm = record {
    memory = record { objects = memory_before; strings = init_table };
    stack = obj 4 ∷ [];
    frames = [];
    globals = record { count = 0; capacity = 0; entries = [] };
    init_string = none;
    open_upvalues = none;
    clock_calls = 0;
    printed = [];
    errors = [];
  };
  marks = false ∷ false ∷ false ∷ false ∷ false ∷ [];
  gray = [];
  objects = 4 ∷ 3 ∷ 2 ∷ 1 ∷ 0 ∷ [];
  freed = [];
  bytes_allocated = 300;
  next_gc = 200;
}

abbrev summary : Option Collector → Option (List Ptr × List Bool × List Ptr × ℕ × ℕ)
summary none = none
summary (some c) = some (c.objects, c.marks, c.freed, c.bytes_allocated, c.next_gc)

cycle_is_freed :
    summary (collect_garbage sizes [] before)
    ≡ some (4 ∷ 1 ∷ 0 ∷ [], false ∷ false ∷ false ∷ false ∷ false ∷ [], 3 ∷ 2 ∷ [], 204, 408)
unfolding collect_garbage init_table
cycle_is_freed = refl

-- Growth past the limit collects, and shrinking does not.
growth_collects :
    summary (reallocate sizes [] 0 1 before)
    ≡ some (4 ∷ 1 ∷ 0 ∷ [], false ∷ false ∷ false ∷ false ∷ false ∷ [], 3 ∷ 2 ∷ [], 205, 410)
unfolding reallocate init_table
growth_collects = refl

shrinking_counts :
    summary (reallocate sizes [] 8 0 before) ≡ some (before.objects, before.marks, [], 292, 200)
unfolding reallocate
shrinking_counts = refl

below_five : (p : Ptr) → p < 5 → Memᴰ p (4 ∷ 3 ∷ 2 ∷ 1 ∷ 0 ∷ [])
below_five zero h = Memᴰ.tail (Memᴰ.tail (Memᴰ.tail (Memᴰ.tail (Memᴰ.head refl))))
below_five (suc zero) h = Memᴰ.tail (Memᴰ.tail (Memᴰ.tail (Memᴰ.head refl)))
below_five (suc (suc zero)) h = Memᴰ.tail (Memᴰ.tail (Memᴰ.head refl))
below_five (suc (suc (suc zero))) h = Memᴰ.tail (Memᴰ.head refl)
below_five (suc (suc (suc (suc zero)))) h = Memᴰ.head refl
below_five (suc (suc (suc (suc (suc p))))) h = absurd (omega arith)

in_memory : (p : Ptr) → InUse [] [] before p → p < 5
in_memory p (root m lt) = lt
in_memory p (step r e m lt) = lt

white : (p : ℕ) → get_elem? (false ∷ false ∷ false ∷ false ∷ false ∷ []) p ≡ some true → ⊥
white zero h = cc h
white (suc zero) h = cc h
white (suc (suc zero)) h = cc h
white (suc (suc (suc zero))) h = cc h
white (suc (suc (suc (suc zero)))) h = cc h
white (suc (suc (suc (suc (suc p))))) h = cc h

apart : {p q : Ptr} {ps : List Ptr} → (p ≡ q → ⊥) → ¬ Memᴰ p ps → ¬ Memᴰ p (q ∷ ps)
apart ne away (Memᴰ.head e) = ne e
apart ne away (Memᴰ.tail m) = away m

before-IsSound : IsSound [] [] before
before-IsSound = record {
  sized = refl;
  white = white;
  no_gray = refl;
  distinct = (
    apart (λ e. omega arith)
        (apart (λ e. omega arith)
          (apart (λ e. omega arith) (apart (λ e. omega arith) Memᴰ.not-nil))),
    (
      apart (λ e. omega arith) (apart (λ e. omega arith) (apart (λ e. omega arith) Memᴰ.not-nil)),
      (
        apart (λ e. omega arith) (apart (λ e. omega arith) Memᴰ.not-nil),
        (apart (λ e. omega arith) Memᴰ.not-nil, (Memᴰ.not-nil, tt)),
      ),
    ),
  );
  listed = λ p used. below_five p (in_memory p used);
  open_now = record { chain = end; few = omega arith };
  strings = init_table-IsValid _;
}

collect_garbage-Collected_example :
    (c' : Collector) × (collect_garbage sizes [] before ≡ some c') × Collected [] [] before c'
collect_garbage-Collected_example = collect_garbage-Collected sizes [] [] before before-IsSound

-- A new object is first on the list and has no mark; at the end all objects of the list are freed.
new_object_first :
    summary (some (track_object (native 0) before).1)
    ≡ some (5 ∷ before.objects, false ∷ before.marks, [], 300, 200)
unfolding track_object
new_object_first = refl

all_are_freed :
    summary (some (free_vm sizes before))
    ≡ some (before.objects, before.marks, before.objects, 66, 200)
unfolding free_vm
all_are_freed = refl
