-- ===== src/Collector/Collect.antt =====
-- A whole run of `collectGarbage` of src/common/memory.cc.
use mathlib.Core.Path.{subst}
use mathlib.Core.List.{Memᴰ}
use yscript.Prelude.{
  ℕ, ◌-◌, ◌*◌, ◌≡◌, ◌↔◌, inl, inr, sym, ap, ◌∙◌, List, [], ◌++◌, Bool, none, some, if◌then◌else◌,
  length, Bool-cases,
}
use yscript.Value.{Ptr, Table}
use yscript.Table.{◌>>=◌, table_remove_white}
use yscript.Table.View.{view}
use yscript.Table.Map.{IsValid}
use yscript.Table.White.{table_remove_white-marked}
use yscript.Memory.{string_at}
use yscript.Interp.{Vm}
use yscript.Interp.Chain.{Opens}
use yscript.Interp.Chain.Insert.{HasOpen}
use yscript.Collector.{
  Collector, Sizes, is_marked, mark_roots, trace_references, remove_white, sweep, sweep_loop,
  collect_garbage,
}
use yscript.Collector.Effect.{IsMarked}
use yscript.Collector.Trace.{Reach, trace_references-Traced, Traced-reached, Tracing-roots}
use yscript.Collector.Roots.{roots, mark_roots-Marks}
use yscript.Collector.Sweep.{IsDistinct, is_marked→eq, eq→is_marked, Swept, sweep_loop-Swept}

-- The objects that are in use.
abbrev pub InUse : List Ptr → Opens → Collector → Ptr → Type 0
InUse compilers us c = Reach (roots compilers c.vm us) c.vm.memory.objects

-- Between two runs of the collector: no object is marked, the list has no object twice and has
-- every object that is in use, and the tables and the open upvalues are well formed.
pub record IsSound (compilers : List Ptr) (us : Opens) (c : Collector) : Type 0 where
  pub sized : length c.marks ≡ length c.vm.memory.objects
  pub white : (p : Ptr) → ¬ IsMarked c p
  pub no_gray : c.gray ≡ []
  pub distinct : IsDistinct c.objects
  pub listed : (p : Ptr) → InUse compilers us c p → Memᴰ p c.objects
  pub open_now : HasOpen c.vm us
  pub strings : IsValid (string_at c.vm.memory) c.vm.memory.strings

abbrev with_strings : Table → Vm → Vm
with_strings strings vm = record vm { memory = record (vm.memory) { strings = strings } }

-- What a run does: it frees the objects of the list that are not in use, and no other, and the table
-- of the strings loses those that are freed.
pub record Collected (compilers : List Ptr) (us : Opens) (c c' : Collector) : Type 0 where
  pub stays : (p : Ptr) → Memᴰ p c'.objects ↔ (Memᴰ p c.objects × InUse compilers us c p)
  pub freed_now : List Ptr
  pub freed : c'.freed ≡ c.freed ++ freed_now
  pub goes : (p : Ptr) → Memᴰ p freed_now ↔ (Memᴰ p c.objects × (¬ InUse compilers us c p))
  pub strings : Table
  pub same_vm : c'.vm ≡ with_strings strings c.vm
  pub interned :
      (p : Ptr)
      → InUse compilers us c p
      → view strings.entries p ≡ view c.vm.memory.strings.entries p
  pub dropped : (p : Ptr) → ¬ InUse compilers us c p → view strings.entries p ≡ none
  pub sound : IsSound compilers us c'

-- The two last steps, behind a tracing that has marked the objects in use.
module _ (compilers : List Ptr) (us : Opens) (c c₂ : Collector) (s : IsSound compilers us c)
    (reached : (p : Ptr) → (IsMarked c₂ p ↔ InUse compilers us c p)) (e_vm : c₂.vm ≡ c.vm)
    (e_objects : c₂.objects ≡ c.objects) where
  abbrev after : Table → List Ptr → List Bool → List Ptr → ℕ → ℕ → Collector
  after strings kept marks freed bytes limit = record c₂ {
    vm = with_strings strings c₂.vm;
    objects = kept;
    marks = marks;
    freed = c₂.freed ++ freed;
    bytes_allocated = bytes;
    next_gc = limit;
  }

  module _ (strings : Table) (kept : List Ptr) (marks : List Bool) (freed : List Ptr)
      (bytes limit : ℕ) (swept : Swept c₂.objects c₂.marks kept marks freed)
      (sized : length c₂.marks ≡ length c.vm.memory.objects) (no_gray : c₂.gray ≡ [])
      (valid : IsValid (string_at c.vm.memory) strings) where
    stays-InUse : (p : Ptr) → Memᴰ p kept ↔ (Memᴰ p c.objects × InUse compilers us c p)
    stays-InUse p = (
      λ k. let (m, h) = (swept.stays p).0 k in (subst (Memᴰ p) e_objects m, (reached p).0 h),
      λ k. (swept.stays p).1 (subst (Memᴰ p) (sym e_objects) (k.0), (reached p).1 (k.1)),
    )

    goes_unused : (p : Ptr) → Memᴰ p freed ↔ (Memᴰ p c.objects × (¬ InUse compilers us c p))
    goes_unused p = (
      λ k.
          let (m, h) = (swept.goes p).0 k in
          (subst (Memᴰ p) e_objects m, λ used. h ((reached p).1 used)),
      λ k. (swept.goes p).1 (subst (Memᴰ p) (sym e_objects) (k.0), λ e. k.1 ((reached p).0 e)),
    )

    abbrev IsSoundAt : Vm → Type 0
    IsSoundAt vm =
        IsSound compilers us (record (after strings kept marks freed bytes limit) { vm = vm })

    IsSound-after : IsSoundAt (with_strings strings c.vm)
    unfolding string_at
    IsSound-after = record {
      sized = swept.same_length ∙ sized;
      white = λ p h.
          let (marked, away) = swept.cleared p h in
          away (subst (Memᴰ p) (sym e_objects) (s.listed p ((reached p).0 marked)));
      no_gray = no_gray;
      distinct = swept.distinct;
      listed = λ p used. (stays-InUse p).1 (s.listed p used, used);
      open_now = record { chain = s.open_now.chain; few = s.open_now.few };
      strings = valid;
    }

    Collected-after :
        c₂.freed ≡ c.freed
        → ((p : Ptr)
            → view strings.entries p
              ≡ (if is_marked c₂.marks p then view c.vm.memory.strings.entries p else none))
        → Collected compilers us c (after strings kept marks freed bytes limit)
    Collected-after e_freed views = record {
      stays = stays-InUse;
      freed_now = freed;
      freed = ap (λ fs. fs ++ freed) e_freed;
      goes = goes_unused;
      strings = strings;
      same_vm = ap (with_strings strings) e_vm;
      interned = λ p used. views p ∙ rw (eq→is_marked c₂.marks p ((reached p).1 used));
      dropped = λ p unused. elim (Bool-cases (is_marked c₂.marks p)) [
        | inl m ↦ absurd (unused ((reached p).0 (is_marked→eq c₂.marks p m)))
        | inr m ↦ views p ∙ rw m
      ];
      sound = subst IsSoundAt (ap (with_strings strings) (sym e_vm)) IsSound-after;
    }

collect_garbage-steps :
    (sizes : Sizes) (compilers : List Ptr) (c c₁ c₂ c₃ : Collector)
    → mark_roots compilers c ≡ some c₁
    → trace_references c₁ ≡ some c₂
    → remove_white c₂ ≡ some c₃
    → collect_garbage sizes compilers c
      ≡ some (record (sweep sizes c₃) { next_gc = (sweep sizes c₃).bytes_allocated * 2 })
unfolding collect_garbage
collect_garbage-steps sizes compilers c c₁ c₂ c₃ marking tracing whitening =
    rw (collect_garbage, marking, ◌>>=◌, tracing, ◌>>=◌, whitening, ◌>>=◌)

remove_white-steps :
    (c : Collector) (strings : Table)
    → table_remove_white (string_at c.vm.memory) (is_marked c.marks) c.vm.memory.strings
      ≡ some strings
    → remove_white c ≡ some (record c { vm = with_strings strings c.vm })
unfolding remove_white
remove_white-steps c strings whitening = rw (remove_white, whitening, ◌>>=◌)

-- Between two runs of the collector, `collectGarbage` ends: the objects that the roots lead to stay on the list,
-- the others of the list are freed and lose their entries in the table of strings, and the state is sound again.
pub collect_garbage-Collected :
    (sizes : Sizes) (compilers : List Ptr) (us : Opens) (c : Collector)
    → IsSound compilers us c
    → (c' : Collector) × (collect_garbage sizes compilers c ≡ some c') × Collected compilers us c c'
unfolding sweep
collect_garbage-Collected sizes compilers us c s =
    let from = roots compilers c.vm us in
    let (c₁, marking, m) = mark_roots-Marks compilers c us s.open_now in
    let (c₂, tracing, d) =
      trace_references-Traced from c.vm.memory.objects c₁
        (Tracing-roots from c c₁ s.sized s.white s.no_gray m) in
    let reached = Traced-reached from c.vm.memory.objects c₁ c₂ d in
    let e_vm = d.same_vm ∙ m.same_vm in
    let e_objects = d.same_objects ∙ m.same_objects in
    let (strings, whitening, valid, views) =
      table_remove_white-marked (string_at c.vm.memory) (is_marked c₂.marks) c.vm.memory.strings
        s.strings in
    let swept =
      sweep_loop-Swept sizes c₂.vm.memory.objects c₂.objects c₂.marks
        (subst IsDistinct (sym e_objects) s.distinct) in
    let r = sweep_loop sizes c₂.vm.memory.objects c₂.objects c₂.marks in
    (
      after compilers us c c₂ s reached e_vm e_objects strings (r.0) (r.1) (r.2)
          (c₂.bytes_allocated - r.3) ((c₂.bytes_allocated - r.3) * 2),
      collect_garbage-steps sizes compilers c c₁ c₂ (record c₂ { vm = with_strings strings c₂.vm })
          marking tracing
          (remove_white-steps c₂ strings (
            subst
              (λ (vm : Vm).
                table_remove_white (string_at vm.memory) (is_marked c₂.marks) vm.memory.strings
                ≡ some strings)
              (sym e_vm) whitening)),
      Collected-after compilers us c c₂ s reached e_vm e_objects strings (r.0) (r.1) (r.2)
          (c₂.bytes_allocated - r.3) ((c₂.bytes_allocated - r.3) * 2) swept d.tracing.sized
          d.no_gray valid (d.same_freed ∙ m.same_freed) views,
    )
