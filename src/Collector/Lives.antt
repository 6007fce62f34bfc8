-- ===== src/Collector/Lives.antt =====
-- The objects of the program (src/vm/interp/interp.cc) along its instructions, with runs of the collector of
-- src/common/memory.cc between them.
use mathlib.Core.Logic.{⊎_elim}
use mathlib.Core.Path.{subst}
use mathlib.Core.List.{Memᴰ}
use yscript.Prelude.{
  ℕ, zero, suc, ◌-◌, ◌≡◌, ◌⊎◌, inl, inr, refl, ap, List, [], ◌∷◌, ◌++◌, Bool, false, some, length,
  get_elem?, replicate, map,
}
use yscript.Value.{Ptr}
use yscript.Memory.{Obj}
use yscript.Interp.{Machine, Vm, Outcome, returns, fails}
use yscript.Interp.Run.{step}
use yscript.Interp.Keeps.{Goes}
use yscript.Interp.Keeps.Heap.{
  fixed, Grown, Grown-same, Grown-trans, KnownAs, KnownAs-Grown, KnownAs-read,
}
use yscript.Interp.Keeps.Run.{Keeps-step}
use yscript.Collector.{Collector, Sizes, collect_garbage}
use yscript.Collector.Parted.{Parted, Parts, collect_garbage-Parts}

-- The list of the objects with `n` new ones, the last one first.
abbrev pub linked : (n from : ℕ) → List Ptr → List Ptr
linked zero from objects = objects
linked (suc n) from objects = linked n (suc from) (from ∷ objects)

-- The collector behind an instruction that leaves the machine `vm`: what it has allocated is on the list, and is
-- not marked; `bytes` are counted.
abbrev pub tracked : Vm → ℕ → Collector → Collector
tracked vm bytes c =
    let old = length c.vm.memory.objects in
    let n = length vm.memory.objects - old in
    record c {
      vm = vm;
      marks = c.marks ++ replicate n false;
      objects = linked n old c.objects;
      bytes_allocated = bytes;
    }

-- Any number of instructions and of collections, in any order. Nothing is being compiled.
pub data Lives (machine : Machine) (sizes : Sizes) (c : Collector) : Collector → Type 0 where
  here : Lives machine sizes c c
  stepped :
      {c' : Collector} {vm : Vm} (ended : Bool) (bytes : ℕ)
      → Lives machine sizes c c'
      → step machine c'.vm ≡ returns ended vm
      → Lives machine sizes c (tracked vm bytes c')
  broken :
      {c' : Collector} {vm : Vm} (bytes : ℕ)
      → Lives machine sizes c c'
      → step machine c'.vm ≡ fails vm
      → Lives machine sizes c (tracked vm bytes c')
  collected :
      {c' c'' : Collector}
      → Lives machine sizes c c'
      → collect_garbage sizes [] c' ≡ some c''
      → Lives machine sizes c c''

linked-old :
    (n from : ℕ) (objects : List Ptr) {p : Ptr} → Memᴰ p objects → Memᴰ p (linked n from objects)
linked-old zero from objects m = m
linked-old (suc n) from objects m = linked-old n (suc from) (from ∷ objects) (Memᴰ.tail m)

-- Freed, or on the list.
abbrev Accounted : Ptr → Collector → Type 0
Accounted p c = Memᴰ p c.freed ⊎ Memᴰ p c.objects

tracked-Accounted :
    (p : Ptr) (vm : Vm) (bytes : ℕ) (c : Collector)
    → Accounted p c
    → Accounted p (tracked vm bytes c)
tracked-Accounted p vm bytes c (inl freed) = inl freed
tracked-Accounted p vm bytes c (inr m) =
    let old = length c.vm.memory.objects in
    inr (linked-old (length vm.memory.objects - old) old c.objects m)

Parted-Accounted : (p : Ptr) {c c' : Collector} → Parted c c' → Accounted p c → Accounted p c'
Parted-Accounted p parts (inl freed) = inl (parts.stays_freed p freed)
Parted-Accounted p parts (inr m) = parts.parted p m

module _ (machine : Machine) (sizes : Sizes) (c : Collector) where
  collect_garbage-Parted :
      {c' c'' : Collector} → collect_garbage sizes [] c' ≡ some c'' → Parted c' c''
  collect_garbage-Parted {c'} e = subst (Parts c') e (collect_garbage-Parts sizes [] c')

  Lives-Grown :
      {c' : Collector} → Lives machine sizes c c' → Grown c.vm.memory.objects c'.vm.memory.objects
  Lives-Grown here = Grown-same refl
  Lives-Grown (stepped {c'} ended bytes before e) =
      Grown-trans (Lives-Grown before)
        (subst (λ (o : Outcome Bool). Goes c'.vm o) e ((Keeps-step machine).at c'.vm)).heap
  Lives-Grown (broken {c'} bytes before e) =
      Grown-trans (Lives-Grown before)
        (subst (λ (o : Outcome Bool). Goes c'.vm o) e ((Keeps-step machine).at c'.vm)).heap
  Lives-Grown (collected before e) =
      Grown-trans (Lives-Grown before)
        (Grown-same (ap (map fixed) (collect_garbage-Parted e).memory))

  Lives-Accounted :
      (p : Ptr) {c' : Collector} → Lives machine sizes c c' → Accounted p c → Accounted p c'
  Lives-Accounted p here m = m
  Lives-Accounted p (stepped {c'} {vm} ended bytes before e) m =
      tracked-Accounted p vm bytes c' (Lives-Accounted p before m)
  Lives-Accounted p (broken {c'} {vm} bytes before e) m =
      tracked-Accounted p vm bytes c' (Lives-Accounted p before m)
  Lives-Accounted p (collected before e) m =
      Parted-Accounted p (collect_garbage-Parted e) (Lives-Accounted p before m)

known_at :
    (objects : List Obj) (p : Ptr) {o : Obj}
    → KnownAs objects p o
    → (o' : Obj) × (get_elem? objects p ≡ some o') × (fixed o' ≡ o)
known_at [] p e = absurd (cc e)
known_at (x ∷ objects) zero e = (x, refl, cc e)
known_at (x ∷ objects) (suc p) e = known_at objects p e

-- Whatever instructions a machine executes, up to the end of the script or to a runtime error, with any number of
-- collections between them (a collection inside of an instruction is not in the model): an object on the
-- list of the collector has been freed by a collection, or it is on the list still, at its address and of
-- its kind: a string, a function, a native function or a bound method is the same, a class has the same
-- name, an instance the same class, and a closure the same function and as many upvalues.
pub Lives-fixed :
    (machine : Machine) (sizes : Sizes) (c c' : Collector) (p : Ptr) (o : Obj)
    → Lives machine sizes c c'
    → Memᴰ p c.objects
    → get_elem? c.vm.memory.objects p ≡ some o
    → Memᴰ p c'.freed
      ⊎ (Memᴰ p c'.objects
          × (o' : Obj) × (get_elem? c'.vm.memory.objects p ≡ some o')
          × (fixed o' ≡ fixed o))
Lives-fixed machine sizes c c' p o lives m e =
    let (o', at_p, same) = known_at c'.vm.memory.objects p (
      KnownAs-Grown p (KnownAs-read c.vm.memory.objects p e) (Lives-Grown machine sizes c lives)) in
    ⊎_elim inl (λ listed. inr (listed, o', at_p, same))
      (Lives-Accounted machine sizes c p lives (inr m))
