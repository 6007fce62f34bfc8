-- ===== src/Collector/Effect.antt =====
-- What marking does: the addresses that an object holds, and the effect of marking a list of them.
use mathlib.Core.Logic.{⊎_elim}
use mathlib.Core.List.{Memᴰ}
use mathlib.Core.List.Memᴰ
use yscript.Prelude.{
  ℕ, zero, suc, ◌+◌, ◌<◌, ◌≡◌, ◌⊎◌, inl, inr, refl, ap, ◌∙◌, List, [], ◌∷◌, ◌++◌, Bool, true, false,
  Option, none, some, arith, length, get_elem?, set, take,
}
use yscript.Value.{Ptr, Value, obj, Entry}
use yscript.Memory.{
  Obj, bound_method, class, closure, function, instance_of, native, string, upvalue,
}
use yscript.Collector.{Collector}

-- The addresses that an object holds.
abbrev pub option_refs : Option Ptr → List Ptr
option_refs none = []
option_refs (some p) = p ∷ []

abbrev pub value_refs : Value → List Ptr
value_refs (obj p) = p ∷ []
value_refs _ = []

abbrev pub values_refs : List Value → List Ptr
values_refs [] = []
values_refs (v ∷ rest) = value_refs v ++ values_refs rest

abbrev pub entries_refs : List Entry → List Ptr
entries_refs [] = []
entries_refs (e ∷ rest) = (option_refs e.key ++ value_refs e.value) ++ entries_refs rest

abbrev pub options_refs : List (Option Ptr) → List Ptr
options_refs [] = []
options_refs (o ∷ rest) = option_refs o ++ options_refs rest

abbrev pub refs : Obj → List Ptr
refs (bound_method receiver method) = value_refs receiver ++ method ∷ []
refs (class name methods) = name ∷ entries_refs methods.entries
refs (closure f upvalues) = f ∷ options_refs upvalues
refs (function f) =
    option_refs f.name ++ values_refs (take f.chunk.constants.count f.chunk.constants.values)
refs (instance_of klass fields) = klass ∷ entries_refs fields.entries
refs (native _) = []
refs (string _) = []
refs (upvalue _ closed _) = value_refs closed

abbrev pub IsMarked : Collector → Ptr → Type 0
IsMarked c p = get_elem? c.marks p ≡ some true

-- The objects that are not marked.
unfoldable pub unmarked : List Bool → ℕ
unmarked [] = 0
unmarked (true ∷ marks) = unmarked marks
unmarked (false ∷ marks) = suc (unmarked marks)

-- What marking the addresses `qs` does.
pub record Marks (qs : List Ptr) (c c' : Collector) : Type 0 where
  pub same_vm : c'.vm ≡ c.vm
  pub same_objects : c'.objects ≡ c.objects
  pub same_freed : c'.freed ≡ c.freed
  pub same_length : length c'.marks ≡ length c.marks
  pub kept : (p : Ptr) → IsMarked c p → IsMarked c' p
  pub reached : (p : Ptr) → Memᴰ p qs → p < length c.marks → IsMarked c' p
  pub only : (p : Ptr) → IsMarked c' p → IsMarked c p ⊎ Memᴰ p qs
  pub grays : (p : Ptr) → IsMarked c' p → IsMarked c p ⊎ Memᴰ p c'.gray
  pub gray_kept : (p : Ptr) → Memᴰ p c.gray → Memᴰ p c'.gray
  pub gray_only : (p : Ptr) → Memᴰ p c'.gray → Memᴰ p c.gray ⊎ IsMarked c' p
  pub count : unmarked c'.marks + length c'.gray ≡ unmarked c.marks + length c.gray

pub Marks-none : (c : Collector) → Marks [] c c
Marks-none c = record {
  same_vm = refl;
  same_objects = refl;
  same_freed = refl;
  same_length = refl;
  kept = λ p m. m;
  reached = λ p m h. absurd (Memᴰ.not-nil m);
  only = λ p m. inl m;
  grays = λ p m. inl m;
  gray_kept = λ p m. m;
  gray_only = λ p m. inl m;
  count = refl;
}

pub Marks-append :
    {qs rs : List Ptr} {c c₁ c₂ : Collector}
    → Marks qs c c₁
    → Marks rs c₁ c₂
    → Marks (qs ++ rs) c c₂
Marks-append {qs = qs} a b = record {
  same_vm = b.same_vm ∙ a.same_vm;
  same_objects = b.same_objects ∙ a.same_objects;
  same_freed = b.same_freed ∙ a.same_freed;
  same_length = b.same_length ∙ a.same_length;
  kept = λ p m. b.kept p (a.kept p m);
  reached = λ p m h.
      ⊎_elim (λ l. b.kept p (a.reached p l h)) (λ r. b.reached p r (omega (arith, a.same_length)))
        (Memᴰ.append_cases qs m);
  only = λ p m.
      ⊎_elim (λ l. ⊎_elim inl (λ q. inr (Memᴰ.append_left _ q)) (a.only p l))
        (λ r. inr (Memᴰ.append_right qs r)) (b.only p m);
  grays =
      λ p m. ⊎_elim (λ l. ⊎_elim inl (λ q. inr (b.gray_kept p q)) (a.grays p l)) inr (b.grays p m);
  gray_kept = λ p m. b.gray_kept p (a.gray_kept p m);
  gray_only = λ p m.
      ⊎_elim (λ l. ⊎_elim inl (λ q. inr (b.kept p q)) (a.gray_only p l)) inr (b.gray_only p m);
  count = b.count ∙ a.count;
}

pub unmarked-set :
    (marks : List Bool) (p : Ptr)
    → get_elem? marks p ≡ some false
    → suc (unmarked (set marks p true)) ≡ unmarked marks
unfolding unmarked
unmarked-set [] p h = cc h
unmarked-set (true ∷ marks) zero h = cc h
unmarked-set (false ∷ marks) zero h = refl
unmarked-set (true ∷ marks) (suc p) h = unmarked-set marks p h
unmarked-set (false ∷ marks) (suc p) h = ap suc (unmarked-set marks p h)
