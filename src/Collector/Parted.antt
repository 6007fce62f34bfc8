-- ===== src/Collector/Parted.antt =====
-- A run of `collectGarbage` of src/common/memory.cc from any state: no object gets lost, and none is
-- changed.
use mathlib.Core.List.{Memᴰ}
use mathlib.Core.List.Memᴰ
use yscript.Prelude.{
  ℕ, zero, suc, ◌+◌, ◌*◌, ◌≡◌, ◌⊎◌, inl, inr, refl, sym, ap, ◌∙◌, List, [], ◌∷◌, Bool, false,
  Option, none, some, length, get_elem?, set, Bool-cases,
}
use mathlib.Core.Path.{subst}
use mathlib.Core.Logic.{⊎_elim}
use yscript.Value.{Ptr, Table}
use yscript.Table.{◌>>=◌, table_remove_white}
use yscript.Memory.{Obj, string_at}
use yscript.Interp.{Vm}
use yscript.Collector.{
  Collector, Sizes, is_marked, mark_object, mark_table, mark_open, mark_stack, mark_frames,
  mark_compiler_roots, mark_roots, next_of, blacken_object, trace_loop, trace_references,
  sweep_loop, sweep, remove_white, collect_garbage,
}
use yscript.Collector.Effect.{Marks}
use yscript.Collector.Marks.{
  mark_object-Marks, mark_stack-Marks, mark_frames-Marks, mark_compiler_roots-Marks,
  mark_table-Marks, blacken_object-Marks,
}

-- What marking leaves alone.
record Alike (c c' : Collector) : Type 0 where
  same_vm : c'.vm ≡ c.vm
  same_objects : c'.objects ≡ c.objects
  same_freed : c'.freed ≡ c.freed

abbrev Leaves : Collector → Option Collector → Type 0
Leaves c none = Unit
Leaves c (some c') = Alike c c'

Alike-self : (c : Collector) → Alike c c
Alike-self c = record { same_vm = refl; same_objects = refl; same_freed = refl }

Alike-trans : {a b c : Collector} → Alike a b → Alike b c → Alike a c
Alike-trans x y = record {
  same_vm = y.same_vm ∙ x.same_vm;
  same_objects = y.same_objects ∙ x.same_objects;
  same_freed = y.same_freed ∙ x.same_freed;
}

Marks-Alike : {qs : List Ptr} {c c' : Collector} → Marks qs c c' → Alike c c'
Marks-Alike m = record {
  same_vm = m.same_vm;
  same_objects = m.same_objects;
  same_freed = m.same_freed;
}

Leaves-after : {a b : Collector} → Alike a b → (o : Option Collector) → Leaves b o → Leaves a o
Leaves-after x none l = tt
Leaves-after x (some c) l = Alike-trans x l

mark_open-Leaves : (f : ℕ) (head : Option Ptr) (c : Collector) → Leaves c (mark_open f head c)
unfolding mark_open
mark_open-Leaves zero head c = tt
mark_open-Leaves (suc f) none c = Alike-self c
mark_open-Leaves (suc f) (some u) c =
    go (next_of (get_elem? c.vm.memory.objects u))
      (λ n. mark_open-Leaves f n (mark_object (some u) c))
  where
    go :
        (next : Option (Option Ptr))
        → ((n : Option Ptr)
            → Leaves (mark_object (some u) c) (mark_open f n (mark_object (some u) c)))
        → Leaves c (elim next [ none ↦ none | some n ↦ mark_open f n (mark_object (some u) c) ])
    go none further = tt
    go (some n) further =
        Leaves-after (Marks-Alike (mark_object-Marks (some u) c))
          (mark_open f n (mark_object (some u) c)) (further n)

mark_roots-Leaves : (compilers : List Ptr) (c : Collector) → Leaves c (mark_roots compilers c)
unfolding mark_roots
mark_roots-Leaves compilers c =
    go
      (mark_open (suc (length c.vm.memory.objects)) c.vm.open_upvalues
        (mark_frames c.vm.frames (mark_stack c.vm.stack c)))
      (Leaves-after (Alike-trans stacked framed) _ (
        mark_open-Leaves (suc (length c.vm.memory.objects)) c.vm.open_upvalues
          (mark_frames c.vm.frames (mark_stack c.vm.stack c))))
  where
    stacked : Alike c (mark_stack c.vm.stack c)
    stacked = Marks-Alike (mark_stack-Marks c.vm.stack c)

    framed : Alike (mark_stack c.vm.stack c) (mark_frames c.vm.frames (mark_stack c.vm.stack c))
    framed = Marks-Alike (mark_frames-Marks c.vm.frames (mark_stack c.vm.stack c))

    go :
        (opened : Option Collector)
        → Leaves c opened
        → Leaves c (
            opened >>= λ (c₁ : Collector). some (
              mark_object c.vm.init_string
                (mark_compiler_roots compilers (mark_table c.vm.globals c₁))))
    go none l = tt
    go (some c₁) l =
        let c₂ = mark_table c.vm.globals c₁ in
        let c₃ = mark_compiler_roots compilers c₂ in
        Alike-trans l (
          Alike-trans (Marks-Alike (mark_table-Marks c.vm.globals c₁)) (
            Alike-trans (Marks-Alike (mark_compiler_roots-Marks compilers c₂))
              (Marks-Alike (mark_object-Marks c.vm.init_string c₃))))

trace_loop-Leaves : (f : ℕ) (c : Collector) → Leaves c (trace_loop f c)
unfolding trace_loop
trace_loop-Leaves zero c = tt
trace_loop-Leaves (suc f) c = go c.gray (trace_loop-Leaves f)
  where
    blackened : (gray : List Ptr) (o : Obj) → Alike c (blacken_object o (record c { gray = gray }))
    blackened gray o =
        let a = Marks-Alike (blacken_object-Marks o (record c { gray = gray })) in
        record { same_vm = a.same_vm; same_objects = a.same_objects; same_freed = a.same_freed }

    held :
        (gray : List Ptr) (object : Option Obj)
        → ((c' : Collector) → Leaves c' (trace_loop f c'))
        → Leaves c (elim object [
          | none ↦ none
          | some o ↦ trace_loop f (blacken_object o (record c { gray = gray }))
        ])
    held gray none further = tt
    held gray (some o) further =
        Leaves-after (blackened gray o) _ (further (blacken_object o (record c { gray = gray })))

    go :
        (gray : List Ptr)
        → ((c' : Collector) → Leaves c' (trace_loop f c'))
        → Leaves c (elim gray [
          | [] ↦ some c
          | p ∷ gray ↦ elim (get_elem? c.vm.memory.objects p) [
            | none ↦ none
            | some o ↦ trace_loop f (blacken_object o (record c { gray = gray }))
          ]
        ])
    go [] further = Alike-self c
    go (p ∷ gray) further = held gray (get_elem? c.vm.memory.objects p) further

-- Each object of the list is kept or freed, whatever is marked.
sweep_loop-parted :
    (sizes : Sizes) (memory : List Obj) (objects : List Ptr) (marks : List Bool) {p : Ptr}
    → Memᴰ p objects
    → Memᴰ p (sweep_loop sizes memory objects marks).2
      ⊎ Memᴰ p (sweep_loop sizes memory objects marks).0
unfolding sweep_loop
sweep_loop-parted sizes memory [] marks m = absurd (Memᴰ.not-nil m)
sweep_loop-parted sizes memory (q ∷ rest) marks m = elim (Bool-cases (is_marked marks q)) [
  | inl marked ↦ rw marked (elim (Memᴰ.cases_cons m) [
    | inl e ↦ inr (Memᴰ.head e)
    | inr k ↦
        ⊎_elim inl (λ kept. inr (Memᴰ.tail kept))
          (sweep_loop-parted sizes memory rest (set marks q false) k)
  ])
  | inr white ↦ rw white (elim (Memᴰ.cases_cons m) [
    | inl e ↦ inl (Memᴰ.head e)
    | inr k ↦
        ⊎_elim (λ freed. inl (Memᴰ.tail freed)) inr (sweep_loop-parted sizes memory rest marks k)
  ])
]

-- What a collection does to the objects.
pub record Parted (c c' : Collector) : Type 0 where
  pub memory : c'.vm.memory.objects ≡ c.vm.memory.objects
  pub parted : (p : Ptr) → Memᴰ p c.objects → Memᴰ p c'.freed ⊎ Memᴰ p c'.objects
  pub stays_freed : (p : Ptr) → Memᴰ p c.freed → Memᴰ p c'.freed

abbrev pub Parts : Collector → Option Collector → Type 0
Parts c none = Unit
Parts c (some c') = Parted c c'

Parts-bind :
    (c : Collector) (o : Option Collector) (f : Collector → Option Collector)
    → Leaves c o
    → ((c₁ : Collector) → Alike c c₁ → Parts c (f c₁))
    → Parts c (o >>= f)
Parts-bind c none f l k = tt
Parts-bind c (some c₁) f l k = k c₁ l

-- The steps behind the tracing.
module _ (sizes : Sizes) (c traced : Collector) (a : Alike c traced) where
  abbrev whitened : Table → Collector
  whitened strings = record traced {
    vm = record (traced.vm) { memory = record (traced.vm.memory) { strings = strings } };
  }

  sweep-Parted :
      (strings : Table)
      → Parted c (record (sweep sizes (whitened strings)) {
        next_gc = (sweep sizes (whitened strings)).bytes_allocated * 2;
      })
  unfolding sweep
  sweep-Parted strings = record {
    memory = ap (λ (vm : Vm). vm.memory.objects) a.same_vm;
    parted = λ p m.
        ⊎_elim (λ freed. inl (Memᴰ.append_right traced.freed freed)) inr
          (sweep_loop-parted sizes traced.vm.memory.objects traced.objects traced.marks
            (subst (Memᴰ p) (sym a.same_objects) m));
    stays_freed = λ p m. Memᴰ.append_left _ (subst (Memᴰ p) (sym a.same_freed) m);
  }

  remove_white-Parts : Parts c (
      remove_white traced >>= λ (weak : Collector).
      some (record (sweep sizes weak) { next_gc = (sweep sizes weak).bytes_allocated * 2 }))
  unfolding remove_white
  remove_white-Parts = go (
      table_remove_white (string_at traced.vm.memory) (is_marked traced.marks)
        traced.vm.memory.strings)
    where
      go :
          (strings : Option Table)
          → Parts c (
              (strings >>= λ (strings : Table). some (whitened strings)) >>= λ (weak : Collector).
              some (record (sweep sizes weak) { next_gc = (sweep sizes weak).bytes_allocated * 2 }))
      go none = tt
      go (some strings) = sweep-Parted strings

pub collect_garbage-Parts :
    (sizes : Sizes) (compilers : List Ptr) (c : Collector)
    → Parts c (collect_garbage sizes compilers c)
unfolding collect_garbage trace_references
collect_garbage-Parts sizes compilers c =
    Parts-bind c (mark_roots compilers c) _ (mark_roots-Leaves compilers c) λ marked a.
      Parts-bind c (trace_references marked) _
        (Leaves-after a (trace_references marked)
          (trace_loop-Leaves (suc (length marked.marks + length marked.gray)) marked))
        λ traced b. remove_white-Parts sizes c traced b
