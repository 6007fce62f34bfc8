-- ===== src/Collector/Sweep.antt =====
-- `sweep` of src/common/memory.cc: which objects stay on the list and which are freed.
use mathlib.Core.List.{Memᴰ}
use mathlib.Core.List.Memᴰ
use yscript.Prelude.{
  ℕ, zero, suc, ◌<◌, ◌≡◌, ◌≢◌, ◌↔◌, inl, inr, refl, sym, ◌∙◌, List, [], ◌∷◌, Bool, true, false,
  some, arith, length, length-set, get_elem?, set, get_elem?-set_self, get_elem?-set_ne,
  get_elem?-lt, Bool-cases,
}
use package.native.Mathlib.Decide.{ℕ_discrete}
use yscript.Value.{Ptr}
use yscript.Memory.{Obj}
use yscript.Collector.{Sizes, is_marked, sweep_loop}

-- No address stands twice on the list.
abbrev pub IsDistinct : List Ptr → Type 0
IsDistinct [] = Unit
IsDistinct (p ∷ ps) = (¬ Memᴰ p ps) × IsDistinct ps

pub is_marked→eq :
    (marks : List Bool) (p : Ptr) → is_marked marks p ≡ true → get_elem? marks p ≡ some true
is_marked→eq [] p h = cc h
is_marked→eq (m ∷ marks) zero h = rw h
is_marked→eq (m ∷ marks) (suc p) h = is_marked→eq marks p h

pub eq→is_marked :
    (marks : List Bool) (p : Ptr) → get_elem? marks p ≡ some true → is_marked marks p ≡ true
eq→is_marked [] p h = cc h
eq→is_marked (m ∷ marks) zero h = cc h
eq→is_marked (m ∷ marks) (suc p) h = eq→is_marked marks p h

set-false :
    (marks : List Bool) (p q : Ptr)
    → get_elem? (set marks p false) q ≡ some true
    → (p ≢ q) × (get_elem? marks q ≡ some true)
set-false marks p q h = elim (ℕ_discrete p q) [
  | no apart ↦ (apart, sym (get_elem?-set_ne marks false apart) ∙ h)
  | yes e ↦
      let lt : p < length marks = omega (arith, get_elem?-lt _ q h, length-set marks p false) in
      let both = sym (get_elem?-set_self marks p false lt) in absurd (cc (both, h, e))
]

pub record Swept (objects : List Ptr) (marks : List Bool) (kept : List Ptr) (marks' : List Bool)
    (freed : List Ptr) : Type 0 where
  pub same_length : length marks' ≡ length marks
  pub cleared :
      (q : Ptr)
      → get_elem? marks' q ≡ some true
      → (get_elem? marks q ≡ some true) × (¬ Memᴰ q objects)
  pub stays : (q : Ptr) → Memᴰ q kept ↔ (Memᴰ q objects × (get_elem? marks q ≡ some true))
  pub goes : (q : Ptr) → Memᴰ q freed ↔ (Memᴰ q objects × (get_elem? marks q ≢ some true))
  pub distinct : IsDistinct kept

module _ (p : Ptr) (rest : List Ptr) (marks : List Bool) (kept : List Ptr) (marks' : List Bool)
    (freed : List Ptr) (apart : ¬ Memᴰ p rest) where
  Swept-keep :
      get_elem? marks p ≡ some true
      → Swept rest (set marks p false) kept marks' freed
      → Swept (p ∷ rest) marks (p ∷ kept) marks' freed
  Swept-keep m s =
      let others : (q : Ptr) → Memᴰ q rest → get_elem? (set marks p false) q ≡ get_elem? marks q =
        λ q k. get_elem?-set_ne marks false (λ e. apart (Memᴰ.cast e k)) in
      record {
        same_length = s.same_length ∙ length-set marks p false;
        cleared = λ q h.
            let (h₁, away) = s.cleared q h in
            let (ne, h₂) = set-false marks p q h₁ in
            (h₂, λ k. elim (Memᴰ.cases_cons k) [ inl e ↦ ne (sym e) | inr k' ↦ away k' ]);
        stays = λ q. (
          λ k. elim (Memᴰ.cases_cons k) [
            | inl e ↦ (Memᴰ.head e, rw e m)
            | inr k' ↦ let (k₁, h) = (s.stays q).0 k' in (Memᴰ.tail k₁, sym (others q k₁) ∙ h)
          ],
          λ k. elim (Memᴰ.cases_cons (k.0)) [
            | inl e ↦ Memᴰ.head e
            | inr k' ↦ Memᴰ.tail ((s.stays q).1 (k', others q k' ∙ k.1))
          ],
        );
        goes = λ q. (
          λ k. let (k₁, h) = (s.goes q).0 k in (Memᴰ.tail k₁, λ e. h (others q k₁ ∙ e)),
          λ k. elim (Memᴰ.cases_cons (k.0)) [
            | inl e ↦ absurd (k.1 (rw e m))
            | inr k' ↦ (s.goes q).1 (k', λ e. k.1 (sym (others q k') ∙ e))
          ],
        );
        distinct = (λ k. apart (((s.stays p).0 k).0), s.distinct);
      }

  Swept-free :
      get_elem? marks p ≢ some true
      → Swept rest marks kept marks' freed
      → Swept (p ∷ rest) marks kept marks' (p ∷ freed)
  Swept-free m s = record {
    same_length = s.same_length;
    cleared = λ q h.
        let (h₁, away) = s.cleared q h in
        (h₁, λ k. elim (Memᴰ.cases_cons k) [ inl e ↦ m (rw⁻¹ e h₁) | inr k' ↦ away k' ]);
    stays = λ q. (
      λ k. let (k₁, h) = (s.stays q).0 k in (Memᴰ.tail k₁, h),
      λ k. elim (Memᴰ.cases_cons (k.0)) [
        | inl e ↦ absurd (m (rw⁻¹ e (k.1)))
        | inr k' ↦ (s.stays q).1 (k', k.1)
      ],
    );
    goes = λ q. (
      λ k. elim (Memᴰ.cases_cons k) [
        | inl e ↦ (Memᴰ.head e, rw e m)
        | inr k' ↦ let (k₁, h) = (s.goes q).0 k' in (Memᴰ.tail k₁, h)
      ],
      λ k. elim (Memᴰ.cases_cons (k.0)) [
        | inl e ↦ Memᴰ.head e
        | inr k' ↦ Memᴰ.tail ((s.goes q).1 (k', k.1))
      ],
    );
    distinct = s.distinct;
  }

abbrev pub SweptBy : List Ptr → List Bool → List Ptr × List Bool × List Ptr × ℕ → Type 0
SweptBy objects marks (kept, marks', freed, _) = Swept objects marks kept marks' freed

-- Of the objects of the list, those that are marked stay, in their order, the others are freed,
-- and no mark is left on them.
pub sweep_loop-Swept :
    (sizes : Sizes) (memory : List Obj) (objects : List Ptr) (marks : List Bool)
    → IsDistinct objects
    → SweptBy objects marks (sweep_loop sizes memory objects marks)
unfolding sweep_loop
sweep_loop-Swept sizes memory [] marks d = record {
  same_length = refl;
  cleared = λ q h. (h, Memᴰ.not-nil);
  stays = λ q. (λ k. absurd (Memᴰ.not-nil k), λ k. absurd (Memᴰ.not-nil (k.0)));
  goes = λ q. (λ k. absurd (Memᴰ.not-nil k), λ k. absurd (Memᴰ.not-nil (k.0)));
  distinct = tt;
}
sweep_loop-Swept sizes memory (p ∷ rest) marks (apart, d) = elim (Bool-cases (is_marked marks p)) [
  | inl m ↦ rw m (
      Swept-keep p rest marks _ _ _ apart (is_marked→eq marks p m)
        (sweep_loop-Swept sizes memory rest (set marks p false) d))
  | inr m ↦ rw m (
      Swept-free p rest marks _ _ _ apart (λ e. cc (m, eq→is_marked marks p e))
        (sweep_loop-Swept sizes memory rest marks d))
]
