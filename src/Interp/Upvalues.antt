-- ===== src/Interp/Upvalues.antt =====
-- The list of the open upvalues (`captureUpvalue` and `closeUpvalues` of src/vm/interp/interp.cc).
use yscript.Prelude.{
  ℕ, zero, suc, List, [], ◌∷◌, Bool, false, Option, none, some, ◌==◌, ltb, leb, if◌then◌else◌,
  length, get_elem?, set,
}
use yscript.Value.{Ptr, Value}
use yscript.Memory.{Obj, upvalue, slot, own, new_upvalue}
use yscript.Interp.{Vm, Outcome, returns, stuck, M, given}

-- The value in a slot.
unfoldable pub at_slot : List Value → ℕ → Option Value
at_slot [] i = none
at_slot (v ∷ rest) i = let further = at_slot rest i in if length rest == i then some v else further

-- A write of the value in a slot.
unfoldable pub with_slot : List Value → ℕ → Value → List Value
with_slot [] i value = []
with_slot (v ∷ rest) i value =
    let further = v ∷ with_slot rest i value in if length rest == i then value ∷ rest else further

unfoldable pub load_slot : ℕ → M Value
unfolding at_slot
load_slot i vm = given (at_slot vm.stack i) vm

unfoldable pub store_slot : ℕ → Value → M (Unit {0})
unfolding with_slot
store_slot i value vm =
    if ltb i (length vm.stack)
    then returns tt (record vm { stack = with_slot vm.stack i value })
    else stuck

-- An upvalue that is open, with its slot and the next one.
abbrev pub as_open : Option Obj → Option (ℕ × Value × Option Ptr)
as_open (some (upvalue (slot i) closed next)) = some (i, closed, next)
as_open _ = none

-- The loop of `captureUpvalue`: `prevUpvalue` and `upvalue` at its end.
unfoldable pub capture_loop :
    ℕ → List Obj → ℕ → Option Ptr → Option Ptr → Option (Option Ptr × Option Ptr)
capture_loop zero objects local prev next = none
capture_loop (suc f) objects local prev none = some (prev, none)
capture_loop (suc f) objects local prev (some u) = elim (as_open (get_elem? objects u)) [
  | none ↦ none
  | some (i, _, next) ↦
      let further = capture_loop f objects local (some u) next in
      if ltb local i then further else some (prev, some u)
]

abbrev pub slot_of : List Obj → Option Ptr → Option ℕ
slot_of objects none = none
slot_of objects (some u) = elim (as_open (get_elem? objects u)) [
  | none ↦ none
  | some (i, _, _) ↦ some i
]

abbrev pub is_at : Option ℕ → ℕ → Bool
is_at none local = false
is_at (some i) local = i == local

-- `p->next = next` of an upvalue.
abbrev pub with_next : Option Ptr → Obj → Obj
with_next next (upvalue location closed _) = upvalue location closed next
with_next next o = o

abbrev pub set_next : List Obj → Ptr → Option Ptr → List Obj
set_next objects p next = elim (get_elem? objects p) [
  | none ↦ objects
  | some o ↦ set objects p (with_next next o)
]

-- The new upvalue between `prev` and `next`.
unfoldable pub insert_upvalue : ℕ → Option Ptr → Option Ptr → Vm → Ptr × Vm
unfolding new_upvalue
insert_upvalue local prev next vm =
    let (created, m) = new_upvalue local vm.memory in
    let objects = set_next m.objects created next in
    (
      created,
      elim prev [
        | none ↦ record vm { memory = record m { objects = objects }; open_upvalues = some created }
        | some p ↦ record vm { memory = record m { objects = set_next objects p (some created) } }
      ],
    )

abbrev pub inserted : Ptr × Vm → Outcome Ptr
inserted (u, vm) = returns u vm

-- The loop may make one round more than there are objects.
unfoldable pub capture_upvalue : ℕ → M Ptr
unfolding capture_loop insert_upvalue
capture_upvalue local vm =
    let objects = vm.memory.objects in
    elim (capture_loop (suc (length objects)) objects local none vm.open_upvalues) [
      | none ↦ stuck
      | some (prev, none) ↦ inserted (insert_upvalue local prev none vm)
      | some (prev, some u) ↦
          if is_at (slot_of objects (some u)) local
          then returns u vm
          else inserted (insert_upvalue local prev (some u) vm)
    ]

-- `upvalue->closed = value; upvalue->location = &upvalue->closed; vm.openUpvalues = next;`
unfoldable pub close_upvalue : Ptr → Value → Option Ptr → Vm → Vm
close_upvalue u value next vm = record vm {
  memory = record (vm.memory) { objects = set vm.memory.objects u (upvalue own value next) };
  open_upvalues = next;
}

unfoldable pub close_loop : ℕ → ℕ → M (Unit {0})
unfolding at_slot close_upvalue
close_loop zero last vm = stuck
close_loop (suc f) last vm = elim vm.open_upvalues [
  | none ↦ returns tt vm
  | some u ↦ elim (as_open (get_elem? vm.memory.objects u)) [
    | none ↦ stuck
    | some (i, _, next) ↦
        let closing : Outcome (Unit {0}) = elim (at_slot vm.stack i) [
          | none ↦ stuck
          | some value ↦ close_loop f last (close_upvalue u value next vm)
        ] in
        if leb last i then closing else returns tt vm
  ]
]

unfoldable pub close_upvalues : ℕ → M (Unit {0})
unfolding close_loop
close_upvalues last vm = close_loop (suc (length vm.memory.objects)) last vm
