-- ===== src/Collector.antt =====
-- The garbage collector (src/common/memory.cc, with `markTable` of src/common/hashtable.cc and
-- `markCompilerRoots` of src/compiler/parser.cc): its state, marking, sweeping and the bytes that
-- it counts. `none` as a result says that fuel has run out or that an address leads nowhere.
pub mod Marks
pub mod Trace
pub mod Sweep
pub mod Collect
pub mod Effect
pub mod Roots
pub mod Parted
pub mod Lives
use yscript.Prelude.{
  ℕ, zero, suc, ◌+◌, ◌-◌, ◌*◌, List, [], ◌∷◌, ◌++◌, Bool, true, false, Option, none, some, ltb,
  ◌&&◌, if◌then◌else◌, length, get_or, get_elem?, set, take,
}
use yscript.Value.{Ptr, Value, obj, Entry, Table}
use yscript.Chunk.{ValueArray, Chunk}
use yscript.Table.{init_table, ◌>>=◌, table_remove_white}
use yscript.Memory.{
  Obj, bound_method, class, closure, function, instance_of, native, string, upvalue, string_at,
  allocate_object,
}
use yscript.Interp.{Vm, CallFrame}

-- `marks` are the `isMarked` of the objects, `gray` is the gray stack, its top first, and `objects` the list
-- that `vm.objects` leads to. `freed` are the objects that have been freed, in order.
pub record Collector : Type 0 where
  pub vm : Vm
  pub marks : List Bool
  pub gray : List Ptr
  pub objects : List Ptr
  pub freed : List Ptr
  pub bytes_allocated : ℕ
  pub next_gc : ℕ

-- `sizeof` of the structures.
pub record Sizes : Type 0 where
  pub bound_method : ℕ
  pub class : ℕ
  pub closure : ℕ
  pub function : ℕ
  pub instance_of : ℕ
  pub native : ℕ
  pub string : ℕ
  pub upvalue : ℕ
  pub pointer : ℕ
  pub entry : ℕ
  pub int : ℕ
  pub value : ℕ

-- `allocateObject`: the new object is not marked, and it is the first of the list.
unfoldable pub track_object : Obj → Collector → Ptr × Collector
unfolding allocate_object
track_object object c =
    let (p, m) = allocate_object object c.vm.memory in
    (
      p,
      record c {
        vm = record (c.vm) { memory = m };
        marks = c.marks ++ false ∷ [];
        objects = p ∷ c.objects;
      },
    )

abbrev pub is_marked : List Bool → Ptr → Bool
is_marked marks p = get_or marks p false

-- `markObject`; an address behind the last object has nothing to mark.
unfoldable pub mark_object : Option Ptr → Collector → Collector
mark_object none c = c
mark_object (some p) c = elim (get_elem? c.marks p) [
  | none ↦ c
  | some true ↦ c
  | some false ↦ record c { marks = set c.marks p true; gray = p ∷ c.gray }
]

unfoldable pub mark_value : Value → Collector → Collector
unfolding mark_object
mark_value (obj p) = mark_object (some p)
mark_value _ = λ c. c

unfoldable pub mark_values : List Value → Collector → Collector
unfolding mark_value
mark_values [] c = c
mark_values (v ∷ rest) c = mark_values rest (mark_value v c)

unfoldable pub mark_array : ValueArray → Collector → Collector
unfolding mark_values
mark_array array = mark_values (take array.count array.values)

unfoldable pub mark_entries : List Entry → Collector → Collector
unfolding mark_object mark_value
mark_entries [] c = c
mark_entries (e ∷ rest) c = mark_entries rest (mark_value e.value (mark_object e.key c))

unfoldable pub mark_table : Table → Collector → Collector
unfolding mark_entries
mark_table table = mark_entries table.entries

unfoldable pub mark_objects : List (Option Ptr) → Collector → Collector
unfolding mark_object
mark_objects [] c = c
mark_objects (o ∷ rest) c = mark_objects rest (mark_object o c)

unfoldable pub blacken_object : Obj → Collector → Collector
unfolding mark_object mark_value mark_array mark_table mark_objects
blacken_object (bound_method receiver method) c = mark_object (some method) (mark_value receiver c)
blacken_object (class name methods) c = mark_table methods (mark_object (some name) c)
blacken_object (closure f upvalues) c = mark_objects upvalues (mark_object (some f) c)
blacken_object (function f) c = mark_array f.chunk.constants (mark_object f.name c)
blacken_object (instance_of klass fields) c = mark_table fields (mark_object (some klass) c)
blacken_object (native _) c = c
blacken_object (string _) c = c
blacken_object (upvalue _ closed _) c = mark_value closed c

-- The bytes that `freeObject` gives back, with those of `freeTable`, `freeChunk` and `freeValueArray`.
unfoldable pub chunk_bytes : Sizes → Chunk → ℕ
chunk_bytes sizes chunk =
    chunk.capacity + sizes.int * chunk.capacity + sizes.value * chunk.constants.capacity

unfoldable pub free_object : Sizes → Obj → ℕ
unfolding chunk_bytes
free_object sizes (bound_method _ _) = sizes.bound_method
free_object sizes (class _ methods) = sizes.entry * methods.capacity + sizes.class
free_object sizes (closure _ upvalues) = sizes.pointer * length upvalues + sizes.closure
free_object sizes (function f) = chunk_bytes sizes f.chunk + sizes.function
free_object sizes (instance_of _ fields) = sizes.entry * fields.capacity + sizes.instance_of
free_object sizes (native _) = sizes.native
free_object sizes (string s) = s.length + 1 + sizes.string
free_object sizes (upvalue _ _ _) = sizes.upvalue

abbrev pub bytes_at : Sizes → Option Obj → ℕ
bytes_at sizes none = 0
bytes_at sizes (some o) = free_object sizes o

-- The stack and the frames from their bottoms.
unfoldable pub mark_stack : List Value → Collector → Collector
unfolding mark_value
mark_stack [] c = c
mark_stack (v ∷ below) c = mark_value v (mark_stack below c)

unfoldable pub mark_frames : List CallFrame → Collector → Collector
unfolding mark_object
mark_frames [] c = c
mark_frames (f ∷ below) c = mark_object (some f.closure) (mark_frames below c)

abbrev pub next_of : Option Obj → Option (Option Ptr)
next_of (some (upvalue _ _ next)) = some next
next_of _ = none

unfoldable pub mark_open : ℕ → Option Ptr → Collector → Option Collector
unfolding mark_object
mark_open zero _ c = none
mark_open (suc f) none c = some c
mark_open (suc f) (some u) c = elim (next_of (get_elem? c.vm.memory.objects u)) [
  | none ↦ none
  | some next ↦ mark_open f next (mark_object (some u) c)
]

-- The functions that are being compiled, the current one first.
unfoldable pub mark_compiler_roots : List Ptr → Collector → Collector
unfolding mark_object
mark_compiler_roots [] c = c
mark_compiler_roots (f ∷ enclosing) c = mark_compiler_roots enclosing (mark_object (some f) c)

unfoldable pub mark_roots : List Ptr → Collector → Option Collector
unfolding mark_stack mark_frames mark_open mark_table mark_compiler_roots mark_object
mark_roots compilers c = do
  opened ←
      mark_open (suc (length c.vm.memory.objects)) c.vm.open_upvalues
        (mark_frames c.vm.frames (mark_stack c.vm.stack c))
  some (
      mark_object c.vm.init_string (mark_compiler_roots compilers (mark_table c.vm.globals opened)))

unfoldable pub trace_loop : ℕ → Collector → Option Collector
unfolding blacken_object
trace_loop zero c = none
trace_loop (suc f) c = elim c.gray [
  | [] ↦ some c
  | p ∷ gray ↦ elim (get_elem? c.vm.memory.objects p) [
    | none ↦ none
    | some object ↦ trace_loop f (blacken_object object (record c { gray = gray }))
  ]
]

-- Each object becomes gray once at most.
unfoldable pub trace_references : Collector → Option Collector
unfolding trace_loop
trace_references c = trace_loop (suc (length c.marks + length c.gray)) c

-- The loop of `sweep` with the objects that are left: those that stay on the list, the marks, those
-- that are freed, and the bytes that this gives back.
unfoldable pub sweep_loop :
    Sizes → List Obj → List Ptr → List Bool → List Ptr × List Bool × List Ptr × ℕ
unfolding free_object
sweep_loop sizes memory [] marks = ([], marks, [], 0)
sweep_loop sizes memory (p ∷ rest) marks =
    if is_marked marks p
    then (let (kept, marks', freed, bytes) = sweep_loop sizes memory rest (set marks p false) in
        (p ∷ kept, marks', freed, bytes))
    else (let (kept, marks', freed, bytes) = sweep_loop sizes memory rest marks in
        (kept, marks', p ∷ freed, bytes_at sizes (get_elem? memory p) + bytes))

unfoldable pub sweep : Sizes → Collector → Collector
unfolding sweep_loop
sweep sizes c =
    let (kept, marks, freed, bytes) = sweep_loop sizes c.vm.memory.objects c.objects c.marks in
    record c {
      objects = kept;
      marks = marks;
      freed = c.freed ++ freed;
      bytes_allocated = c.bytes_allocated - bytes;
    }

-- `tableRemoveWhite(&vm.strings)`
unfoldable pub remove_white : Collector → Option Collector
unfolding table_remove_white string_at
remove_white c = do
  strings ← table_remove_white (string_at c.vm.memory) (is_marked c.marks) c.vm.memory.strings
  some (record c { vm = record (c.vm) { memory = record (c.vm.memory) { strings = strings } } })

unfoldable pub collect_garbage : Sizes → List Ptr → Collector → Option Collector
unfolding mark_roots trace_references remove_white sweep
collect_garbage sizes compilers c = do
  marked ← mark_roots compilers c
  traced ← trace_references marked
  weak ← remove_white traced
  let swept = sweep sizes weak
  some (record swept { next_gc = swept.bytes_allocated * 2 })

-- `freeObjects`; the list and the gray stack are not read again.
unfoldable pub free_loop : Sizes → List Obj → List Ptr → ℕ
unfolding free_object
free_loop sizes memory [] = 0
free_loop sizes memory (p ∷ rest) =
    bytes_at sizes (get_elem? memory p) + free_loop sizes memory rest

unfoldable pub free_objects : Sizes → Collector → Collector
unfolding free_loop
free_objects sizes c = record c {
  freed = c.freed ++ c.objects;
  bytes_allocated = c.bytes_allocated - free_loop sizes c.vm.memory.objects c.objects;
}

-- `freeTable`: the empty table, and the bytes that are given back.
unfoldable pub free_table : Sizes → Table → Table × ℕ
unfolding init_table
free_table sizes table = (init_table, sizes.entry * table.capacity)

-- `freeVM`
unfoldable pub free_vm : Sizes → Collector → Collector
unfolding free_table free_objects
free_vm sizes c =
    let (globals, bytes) = free_table sizes c.vm.globals in
    let (strings, bytes') = free_table sizes c.vm.memory.strings in
    free_objects sizes (record c {
      vm = record (c.vm) {
        memory = record (c.vm.memory) { strings = strings };
        globals = globals;
        init_string = none;
      };
      bytes_allocated = c.bytes_allocated - bytes - bytes';
    })

-- What `reallocate` does but for the memory itself: it counts, and it collects when more is wanted and the limit is passed.
unfoldable pub reallocate :
    Sizes → List Ptr → (old_size new_size : ℕ) → Collector → Option Collector
unfolding collect_garbage
reallocate sizes compilers old_size new_size c =
    let counted = record c { bytes_allocated = c.bytes_allocated + new_size - old_size } in
    let collected = collect_garbage sizes compilers counted in
    if ltb old_size new_size && ltb counted.next_gc counted.bytes_allocated
    then collected
    else some counted
