-- ===== src/Collector/Roots.antt =====
-- `markRoots` of src/common/memory.cc.
use mathlib.Core.Path.{subst}
use yscript.Prelude.{
  ℕ, zero, suc, ◌<◌, ◌≡◌, refl, sym, ◌∙◌, List, [], ◌∷◌, ◌++◌, Option, some, arith, length,
}
use yscript.Value.{Ptr}
use yscript.Interp.{Vm}
use yscript.Interp.Chain.{Opens, Chain, end, link}
use yscript.Interp.Chain.Insert.{HasOpen}
use yscript.Collector.{
  Collector, mark_object, mark_table, mark_open, mark_stack, mark_frames, mark_compiler_roots,
  mark_roots,
}
use yscript.Collector.Marks.{
  stack_refs, frames_refs, mark_object-Marks, mark_stack-Marks, mark_frames-Marks,
  mark_compiler_roots-Marks, mark_table-Marks,
}
use yscript.Collector.Effect.{option_refs, entries_refs, Marks, Marks-none, Marks-append}

abbrev pub addresses : Opens → List Ptr
addresses [] = []
addresses ((u, _) ∷ us) = u ∷ addresses us

mark_open-Marks :
    (f : ℕ) (c : Collector) {head : Option Ptr} {us : Opens}
    → Chain c.vm.memory.objects head us
    → length us < f
    → (c' : Collector) × (mark_open f head c ≡ some c') × Marks (addresses us) c c'
unfolding mark_open
mark_open-Marks zero c chain h = absurd (omega arith)
mark_open-Marks (suc f) c end h = (c, refl, Marks-none c)
mark_open-Marks (suc f) c (link {u = u} {next = n} {us = us} e below chain) h =
    let m = mark_object-Marks (some u) c in
    let (c', run, m') =
      mark_open-Marks f (mark_object (some u) c)
        (subst (λ vm. Chain vm.memory.objects n us) (sym m.same_vm) chain) (omega arith) in
    (c', rw (mark_open, e) run, Marks-append m m')

-- The addresses that the interpreter and the compiler hold.
abbrev pub roots : List Ptr → Vm → Opens → List Ptr
roots compilers vm us =
    stack_refs vm.stack
    ++ (frames_refs vm.frames
        ++ (addresses us
            ++ (entries_refs vm.globals.entries ++ (compilers ++ option_refs vm.init_string))))

pub mark_roots-Marks :
    (compilers : List Ptr) (c : Collector) (us : Opens)
    → HasOpen c.vm us
    → (c' : Collector) × (mark_roots compilers c ≡ some c') × Marks (roots compilers c.vm us) c c'
unfolding mark_roots
mark_roots-Marks compilers c us h =
    let m₁ = mark_stack-Marks c.vm.stack c in
    let c₁ = mark_stack c.vm.stack c in
    let m₂ = mark_frames-Marks c.vm.frames c₁ in
    let c₂ = mark_frames c.vm.frames c₁ in
    let (c₃, run, m₃) =
      mark_open-Marks (suc (length c.vm.memory.objects)) c₂
        (subst (λ vm. Chain vm.memory.objects c.vm.open_upvalues us) (sym (m₂.same_vm ∙ m₁.same_vm))
          h.chain)
        (omega (arith, h.few)) in
    let m₄ = mark_table-Marks c.vm.globals c₃ in
    let c₄ = mark_table c.vm.globals c₃ in
    let m₅ = mark_compiler_roots-Marks compilers c₄ in
    let c₅ = mark_compiler_roots compilers c₄ in
    (
      mark_object c.vm.init_string c₅,
      rw (run),
      Marks-append m₁ (
          Marks-append m₂ (
            Marks-append m₃
              (Marks-append m₄ (Marks-append m₅ (mark_object-Marks c.vm.init_string c₅))))),
    )
