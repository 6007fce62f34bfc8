-- ===== src/Collector/Trace.antt =====
-- `markRoots` and `traceReferences` of src/common/memory.cc: which objects are marked.
use mathlib.Core.Logic.{⊎_elim}
use mathlib.Core.Path.{subst}
use mathlib.Core.List.{Memᴰ}
use mathlib.Core.List.Memᴰ
use yscript.Prelude.{
  ℕ, zero, suc, ◌+◌, ◌≤◌, ◌<◌, ◌≡◌, ◌⊎◌, ◌↔◌, inl, inr, refl, sym, ap, ◌∙◌, List, [], ◌∷◌, Bool,
  true, false, some, arith, length, get_elem?, get_elem?-lt,
}
use yscript.Value.{Ptr}
use yscript.Memory.{Obj}
use yscript.Interp.{Vm}
use yscript.Collector.{Collector, blacken_object, trace_loop, trace_references}
use yscript.Collector.Marks.{blacken_object-Marks}
use yscript.Collector.Effect.{refs, IsMarked, unmarked, Marks}

-- The objects that the roots lead to.
pub data Reach (from : List Ptr) (objects : List Obj) : Ptr → Type 0 where
  root : {p : Ptr} → Memᴰ p from → p < length objects → Reach from objects p
  step :
      {p q : Ptr} {o : Obj}
      → Reach from objects p
      → get_elem? objects p ≡ some o
      → Memᴰ q (refs o)
      → q < length objects
      → Reach from objects q

unmarked_le : (marks : List Bool) → unmarked marks ≤ length marks
unfolding unmarked
unmarked_le [] = omega arith
unmarked_le (true ∷ marks) = omega (arith, unmarked_le marks)
unmarked_le (false ∷ marks) = omega (arith, unmarked_le marks)

pub get_elem?-some {ℓ} :
    {A : Type ℓ} (xs : List A) (i : ℕ) → i < length xs → (a : A) × (get_elem? xs i ≡ some a)
get_elem?-some [] i h = absurd (omega arith)
get_elem?-some (x ∷ xs) zero h = (x, refl)
get_elem?-some (x ∷ xs) (suc i) h = get_elem?-some xs i (omega arith)

List-cases : (xs : List Ptr) → (xs ≡ []) ⊎ ((x : Ptr) × (rest : List Ptr) × (xs ≡ x ∷ rest))
List-cases [] = inl refl
List-cases (x ∷ xs) = inr (x, xs, refl)

module _ (from : List Ptr) where
  -- While the references are traced: the marked objects are reachable, and what they hold is marked
  -- unless they are gray.
  pub record Tracing (objects : List Obj) (c : Collector) : Type 0 where
    pub memory : c.vm.memory.objects ≡ objects
    pub sized : length c.marks ≡ length objects
    pub sound : (p : Ptr) → IsMarked c p → Reach from objects p
    pub queued : (p : Ptr) → Memᴰ p c.gray → IsMarked c p
    pub closed :
        (p : Ptr)
        → IsMarked c p
        → Memᴰ p c.gray
          ⊎ ((o : Obj) (q : Ptr)
              → get_elem? objects p ≡ some o
              → Memᴰ q (refs o)
              → q < length objects
              → IsMarked c q)
    pub started : (p : Ptr) → Memᴰ p from → p < length objects → IsMarked c p

  Tracing-blacken :
      (objects : List Obj) (c : Collector) (p : Ptr) (gray : List Ptr) (o : Obj)
      → c.gray ≡ p ∷ gray
      → get_elem? objects p ≡ some o
      → Tracing objects c
      → Tracing objects (blacken_object o (record c { gray = gray }))
  Tracing-blacken objects c p gray o e at_p t =
      let m = blacken_object-Marks o (record c { gray = gray }) in
      let p_marked = t.queued p (subst (Memᴰ p) (sym e) (Memᴰ.head refl)) in
      record {
        memory = ap (λ (vm : Vm). vm.memory.objects) m.same_vm ∙ t.memory;
        sized = m.same_length ∙ t.sized;
        sound = λ q k.
            ⊎_elim (t.sound q)
              (λ held.
                step (t.sound p p_marked) at_p held
                  (omega (arith, m.same_length, t.sized, get_elem?-lt _ q k)))
              (m.only q k);
        queued = λ q k.
            ⊎_elim (λ old. m.kept q (t.queued q (subst (Memᴰ q) (sym e) (Memᴰ.tail old)))) (λ n. n)
              (m.gray_only q k);
        closed = λ q k. elim (m.grays q k) [
          | inr now ↦ inl now
          | inl before ↦ elim (t.closed q before) [
            | inr done ↦ inr (λ o' r at_q held lt. m.kept r (done o' r at_q held lt))
            | inl waiting ↦ elim (Memᴰ.cases_cons (subst (Memᴰ q) e waiting)) [
              | inr further ↦ inl (m.gray_kept q further)
              | inl same ↦ inr (λ o' r at_q held lt.
                  let both : some o' ≡ some o = sym at_q ∙ ap (get_elem? objects) same ∙ at_p in
                  let same_o : o' ≡ o = cc both in
                  m.reached r (subst (λ x. Memᴰ r (refs x)) same_o held) (omega (arith, t.sized)))
            ]
          ]
        ];
        started = λ q k lt. m.kept q (t.started q k lt);
      }

  -- What the loop leaves.
  pub record Traced (objects : List Obj) (c c' : Collector) : Type 0 where
    pub tracing : Tracing objects c'
    pub no_gray : c'.gray ≡ []
    pub same_vm : c'.vm ≡ c.vm
    pub same_objects : c'.objects ≡ c.objects
    pub same_freed : c'.freed ≡ c.freed

  trace_loop-Traced :
      (f : ℕ) (objects : List Obj) (c : Collector)
      → Tracing objects c
      → unmarked c.marks + length c.gray < f
      → (c' : Collector) × (trace_loop f c ≡ some c') × Traced objects c c'
  unfolding trace_loop
  trace_loop-Traced zero objects c t h = absurd (omega arith)
  trace_loop-Traced (suc f) objects c t h = elim (List-cases c.gray) [
    | inl e ↦ (
      c,
      simp (trace_loop, e),
      record { tracing = t; no_gray = e; same_vm = refl; same_objects = refl; same_freed = refl },
    )
    | inr (p, gray, e) ↦
        let p_marked = t.queued p (subst (Memᴰ p) (sym e) (Memᴰ.head refl)) in
        let (o, at_p) =
          get_elem?-some objects p (omega (arith, t.sized, get_elem?-lt c.marks p p_marked)) in
        let m = blacken_object-Marks o (record c { gray = gray }) in
        let size : length c.gray ≡ suc (length gray) = ap length e in
        let (c', run, d) =
          trace_loop-Traced f objects (blacken_object o (record c { gray = gray }))
            (Tracing-blacken objects c p gray o e at_p t) (omega (arith, m.count)) in
        (
          c',
          simp (trace_loop, e, t.memory, at_p, run),
          record {
            tracing = d.tracing;
            no_gray = d.no_gray;
            same_vm = d.same_vm ∙ m.same_vm;
            same_objects = d.same_objects ∙ m.same_objects;
            same_freed = d.same_freed ∙ m.same_freed;
          },
        )
  ]

-- The references are traced to the end, and then the marked objects are those that the roots lead to.
pub Traced-reached :
    (from : List Ptr) (objects : List Obj) (c c' : Collector)
    → Traced from objects c c'
    → (p : Ptr) → (IsMarked c' p ↔ Reach from objects p)
Traced-reached from objects c c' d p = (d.tracing.sound p, complete)
  where
    complete : {q : Ptr} → Reach from objects q → IsMarked c' q
    complete (root m lt) = d.tracing.started _ m lt
    complete (step {p = q} {q = r} r_q at_q held lt) = elim (d.tracing.closed q (complete r_q)) [
      | inl waiting ↦ absurd (Memᴰ.not-nil (subst (Memᴰ q) d.no_gray waiting))
      | inr done ↦ done _ r at_q held lt
    ]

pub trace_references-Traced :
    (from : List Ptr) (objects : List Obj) (c : Collector)
    → Tracing from objects c
    → (c' : Collector) × (trace_references c ≡ some c') × Traced from objects c c'
unfolding trace_references
trace_references-Traced from objects c t =
    trace_loop-Traced from (suc (length c.marks + length c.gray)) objects c t
      (omega (arith, unmarked_le c.marks))

-- Behind the roots, the references are still to be traced.
pub Tracing-roots :
    (from : List Ptr) (c c₁ : Collector)
    → length c.marks ≡ length c.vm.memory.objects
    → ((p : Ptr) → ¬ IsMarked c p)
    → c.gray ≡ []
    → Marks from c c₁
    → Tracing from c.vm.memory.objects c₁
Tracing-roots from c c₁ sized white no_gray m = record {
  memory = ap (λ (vm : Vm). vm.memory.objects) m.same_vm;
  sized = m.same_length ∙ sized;
  sound = λ p k.
      ⊎_elim (λ old. absurd (white p old))
        (λ held. root held (omega (arith, get_elem?-lt c₁.marks p k, m.same_length, sized)))
        (m.only p k);
  queued = λ p k.
      ⊎_elim (λ old. absurd (Memᴰ.not-nil (subst (Memᴰ p) no_gray old))) (λ now. now)
        (m.gray_only p k);
  closed = λ p k. ⊎_elim (λ old. absurd (white p old)) inl (m.grays p k);
  started = λ p k lt. m.reached p k (omega (arith, sized));
}
