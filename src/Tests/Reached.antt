-- ===== src/Tests/Reached.antt =====
-- A machine (src/vm/interp/interp.cc) after an instruction.
use yscript.Prelude.{arith, ◌≡◌, ◌⊎◌, refl, false, [], ◌∷◌, none, some, get_elem?}
use yscript.Value.{Ptr, nil, number}
use yscript.OpCode.{byte_of, op_close_upvalue}
use yscript.Memory.{Obj, closure, function, upvalue, slot, own}
use yscript.Interp.{Vm}
use yscript.Interp.Run.{step}
use yscript.Interp.Chain.{Opens, end, link}
use yscript.Interp.Chain.Insert.{HasOpen}
use yscript.Interp.Keeps.Heap.{fixed}
use yscript.Interp.Keeps.Types.{Reaches, Reaches-HasOpen, start, executed}
use mathlib.Core.List.{Memᴰ}
use yscript.Table.{init_table}
use yscript.Collector.{Collector, collect_garbage}
use yscript.Collector.Lives.{Lives, Lives-fixed, here, stepped, collected}
use yscript.Tests.Garbage.{sizes}
use yscript.Tests.Programs.{small_numbers}
use yscript.Tests.Runs.{executing, pushes_nil}

-- A machine that is to close the upvalue of the value on top of its stack.
abbrev closing : Vm
closing = record executing {
  memory = record {
    objects =
        closure 1 []
        ∷ function (record {
          arity = 0;
          upvalue_count = 0;
          chunk = record pushes_nil { code = byte_of op_close_upvalue ∷ [] };
          name = none;
        })
        ∷ upvalue (slot 1) nil none
        ∷ [];
    strings = record { count = 0; capacity = 0; entries = [] };
  };
  stack = number 5 ∷ nil ∷ [];
  open_upvalues = some 2;
}

abbrev after_close : Vm
after_close = record closing {
  memory = record {
    objects =
        closure 1 []
        ∷ function (record {
          arity = 0;
          upvalue_count = 0;
          chunk = record pushes_nil { code = byte_of op_close_upvalue ∷ [] };
          name = none;
        })
        ∷ upvalue own (number 5) none
        ∷ [];
    strings = record { count = 0; capacity = 0; entries = [] };
  };
  stack = nil ∷ [];
  frames = record { closure = 0; ip = 1; slots = 0 } ∷ [];
  open_upvalues = none;
}

close_executed : Reaches small_numbers closing after_close
unfolding step byte_of
close_executed = executed false start refl

Reaches-HasOpen_example : (us : Opens) × HasOpen after_close us
Reaches-HasOpen_example =
    Reaches-HasOpen small_numbers closing after_close ((2, 1) ∷ []) close_executed
      (record { chain = link refl tt end; few = omega arith })

-- The same machine with its objects on the list of the collector.
abbrev owned : Collector
owned = record {
  vm = closing;
  marks = false ∷ false ∷ false ∷ [];
  gray = [];
  objects = 2 ∷ 1 ∷ 0 ∷ [];
  freed = [];
  bytes_allocated = 300;
  next_gc = 200;
}

-- Once it is closed, nothing leads to the upvalue.
abbrev after_collection : Collector
after_collection = record owned {
  vm = after_close;
  objects = 1 ∷ 0 ∷ [];
  freed = 2 ∷ [];
  bytes_allocated = 252;
  next_gc = 504;
}

close_collected : Lives small_numbers sizes owned after_collection
unfolding step byte_of collect_garbage init_table
close_collected = collected (stepped false 300 here refl) refl

Lives-fixed_example :
    Memᴰ {A = Ptr} 0 (2 ∷ [])
    ⊎ (Memᴰ {A = Ptr} 0 (1 ∷ 0 ∷ [])
        × (o : Obj) × (get_elem? after_close.memory.objects 0 ≡ some o)
        × (fixed o ≡ fixed (closure 1 [])))
Lives-fixed_example =
    Lives-fixed small_numbers sizes owned after_collection 0 (closure 1 []) close_collected
      (Memᴰ.tail (Memᴰ.tail (Memᴰ.head refl))) refl
