-- ===== src/Collector/Marks.antt =====
-- What the marking functions of src/common/memory.cc do to the marks and to the gray stack.
use mathlib.Core.Logic.{⊎_elim}
use mathlib.Core.List.{Memᴰ}
use mathlib.Core.List.Memᴰ
use yscript.Prelude.{
  ℕ, zero, suc, ◌<◌, ◌≡◌, ◌≢◌, ◌⊎◌, inl, inr, refl, sym, ◌∙◌, List, [], ◌∷◌, ◌++◌, Bool, true,
  false, Option, none, some, arith, length, length-set, get_elem?, set, get_elem?-set_self,
  get_elem?-set_ne, get_elem?-lt, take,
}
use package.native.Mathlib.Decide.{ℕ_discrete}
use yscript.Value.{Ptr, Value, obj, bool, nil, number, Entry, Table}
use yscript.Memory.{
  Obj, bound_method, class, closure, function, instance_of, native, string, upvalue,
}
use yscript.Interp.{CallFrame}
use yscript.Collector.{
  Collector, mark_object, mark_value, mark_values, mark_array, mark_entries, mark_table,
  mark_objects, blacken_object, mark_stack, mark_frames, mark_compiler_roots,
}
use yscript.Collector.Effect.{
  option_refs, value_refs, values_refs, entries_refs, options_refs, refs, IsMarked, Marks,
  Marks-none, Marks-append, unmarked-set,
}

-- The three cases of `markObject` at an address.
module _ (c : Collector) (p : Ptr) where
  mark_object-marked : IsMarked c p ⊎ (get_elem? c.marks p ≡ none) → mark_object (some p) c ≡ c
  unfolding mark_object
  mark_object-marked (inl m) = simp (mark_object, m)
  mark_object-marked (inr m) = simp (mark_object, m)

  mark_object-white :
      get_elem? c.marks p ≡ some false
      → mark_object (some p) c ≡ record c { marks = set c.marks p true; gray = p ∷ c.gray }
  unfolding mark_object
  mark_object-white m = simp (mark_object, m)

  Marks-marked : IsMarked c p ⊎ (get_elem? c.marks p ≡ none) → Marks (p ∷ []) c c
  Marks-marked m = record {
    same_vm = refl;
    same_objects = refl;
    same_freed = refl;
    same_length = refl;
    kept = λ q m. m;
    reached = λ q here h.
        let e : q ≡ p = Memᴰ.eq_of_singleton here in
        ⊎_elim (λ l. rw e l) (λ r. absurd (ne_none c.marks p (omega arith) r)) m;
    only = λ q m. inl m;
    grays = λ q m. inl m;
    gray_kept = λ q m. m;
    gray_only = λ q m. inl m;
    count = refl;
  }
    where
      ne_none : (marks : List Bool) (i : ℕ) → i < length marks → get_elem? marks i ≢ none
      ne_none [] i h e = absurd (omega arith)
      ne_none (x ∷ xs) zero h e = cc e
      ne_none (x ∷ xs) (suc i) h e = ne_none xs i (omega arith) e

  Marks-white :
      get_elem? c.marks p ≡ some false
      → Marks (p ∷ []) c (record c { marks = set c.marks p true; gray = p ∷ c.gray })
  Marks-white m =
      let lt = get_elem?-lt c.marks p m in
      let here : get_elem? (set c.marks p true) p ≡ some true =
        get_elem?-set_self c.marks p true lt in
      let there : (q : Ptr) → q ≢ p → get_elem? (set c.marks p true) q ≡ get_elem? c.marks q =
        λ q apart. get_elem?-set_ne c.marks true (λ e. apart (sym e)) in
      record {
        same_vm = refl;
        same_objects = refl;
        same_freed = refl;
        same_length = length-set c.marks p true;
        kept = λ q k. elim (ℕ_discrete q p) [ yes e ↦ rw e here | no apart ↦ there q apart ∙ k ];
        reached = λ q k h. let e : q ≡ p = Memᴰ.eq_of_singleton k in rw e here;
        only = λ q k. elim (ℕ_discrete q p) [
          | yes e ↦ inr (Memᴰ.head e)
          | no apart ↦ inl (sym (there q apart) ∙ k)
        ];
        grays = λ q k. elim (ℕ_discrete q p) [
          | yes e ↦ inr (Memᴰ.head e)
          | no apart ↦ inl (sym (there q apart) ∙ k)
        ];
        gray_kept = λ q k. Memᴰ.tail k;
        gray_only = λ q k. ⊎_elim (λ e. inr (rw e here)) inl (Memᴰ.cases_cons k);
        count = omega (arith, unmarked-set c.marks p m);
      }

pub mark_object-Marks : (o : Option Ptr) (c : Collector) → Marks (option_refs o) c (mark_object o c)
unfolding mark_object
mark_object-Marks none c = Marks-none c
mark_object-Marks (some p) c = elim (marks-cases (get_elem? c.marks p)) [
  | inl old ↦ rw (mark_object-marked c p old) (Marks-marked c p old)
  | inr white ↦ rw (mark_object-white c p white) (Marks-white c p white)
]
  where
    marks-cases : (o : Option Bool) → ((o ≡ some true) ⊎ (o ≡ none)) ⊎ (o ≡ some false)
    marks-cases none = inl (inr refl)
    marks-cases (some true) = inl (inl refl)
    marks-cases (some false) = inr refl

mark_value-Marks : (v : Value) (c : Collector) → Marks (value_refs v) c (mark_value v c)
unfolding mark_value
mark_value-Marks (obj p) c = mark_object-Marks (some p) c
mark_value-Marks (bool _) c = Marks-none c
mark_value-Marks nil c = Marks-none c
mark_value-Marks (number _) c = Marks-none c

mark_values-Marks : (vs : List Value) (c : Collector) → Marks (values_refs vs) c (mark_values vs c)
unfolding mark_values
mark_values-Marks [] c = Marks-none c
mark_values-Marks (v ∷ vs) c =
    Marks-append (mark_value-Marks v c) (mark_values-Marks vs (mark_value v c))

mark_entries-Marks :
    (es : List Entry) (c : Collector) → Marks (entries_refs es) c (mark_entries es c)
unfolding mark_entries
mark_entries-Marks [] c = Marks-none c
mark_entries-Marks (e ∷ es) c =
    Marks-append
      (Marks-append (mark_object-Marks e.key c) (mark_value-Marks e.value (mark_object e.key c)))
      (mark_entries-Marks es (mark_value e.value (mark_object e.key c)))

mark_objects-Marks :
    (os : List (Option Ptr)) (c : Collector) → Marks (options_refs os) c (mark_objects os c)
unfolding mark_objects
mark_objects-Marks [] c = Marks-none c
mark_objects-Marks (o ∷ os) c =
    Marks-append (mark_object-Marks o c) (mark_objects-Marks os (mark_object o c))

-- Blackening an object marks the addresses that it holds.
pub blacken_object-Marks : (o : Obj) (c : Collector) → Marks (refs o) c (blacken_object o c)
unfolding blacken_object mark_array mark_table
blacken_object-Marks (bound_method receiver method) c =
    Marks-append (mark_value-Marks receiver c)
      (mark_object-Marks (some method) (mark_value receiver c))
blacken_object-Marks (class name methods) c =
    Marks-append (mark_object-Marks (some name) c)
      (mark_entries-Marks methods.entries (mark_object (some name) c))
blacken_object-Marks (closure f upvalues) c =
    Marks-append (mark_object-Marks (some f) c)
      (mark_objects-Marks upvalues (mark_object (some f) c))
blacken_object-Marks (function f) c = Marks-append (mark_object-Marks f.name c) (
    mark_values-Marks (take f.chunk.constants.count f.chunk.constants.values)
      (mark_object f.name c))
blacken_object-Marks (instance_of klass fields) c =
    Marks-append (mark_object-Marks (some klass) c)
      (mark_entries-Marks fields.entries (mark_object (some klass) c))
blacken_object-Marks (native _) c = Marks-none c
blacken_object-Marks (string _) c = Marks-none c
blacken_object-Marks (upvalue _ closed _) c = mark_value-Marks closed c

abbrev pub stack_refs : List Value → List Ptr
stack_refs [] = []
stack_refs (v ∷ below) = stack_refs below ++ value_refs v

abbrev pub frames_refs : List CallFrame → List Ptr
frames_refs [] = []
frames_refs (f ∷ below) = frames_refs below ++ f.closure ∷ []

pub mark_stack-Marks : (vs : List Value) (c : Collector) → Marks (stack_refs vs) c (mark_stack vs c)
unfolding mark_stack
mark_stack-Marks [] c = Marks-none c
mark_stack-Marks (v ∷ vs) c =
    Marks-append (mark_stack-Marks vs c) (mark_value-Marks v (mark_stack vs c))

pub mark_frames-Marks :
    (fs : List CallFrame) (c : Collector) → Marks (frames_refs fs) c (mark_frames fs c)
unfolding mark_frames
mark_frames-Marks [] c = Marks-none c
mark_frames-Marks (f ∷ fs) c =
    Marks-append (mark_frames-Marks fs c) (mark_object-Marks (some f.closure) (mark_frames fs c))

pub mark_compiler_roots-Marks :
    (fs : List Ptr) (c : Collector) → Marks fs c (mark_compiler_roots fs c)
unfolding mark_compiler_roots
mark_compiler_roots-Marks [] c = Marks-none c
mark_compiler_roots-Marks (f ∷ fs) c =
    Marks-append (mark_object-Marks (some f) c)
      (mark_compiler_roots-Marks fs (mark_object (some f) c))

pub mark_table-Marks :
    (t : Table) (c : Collector) → Marks (entries_refs t.entries) c (mark_table t c)
unfolding mark_table
mark_table-Marks t c = mark_entries-Marks t.entries c
