-- ===== src/Interp/Keeps/Types.antt =====
-- The open upvalues of a machine (src/vm/interp/interp.cc) along its instructions.
use mathlib.Core.Path.{subst}
use yscript.Prelude.{◌≡◌, sym, arith, Option, [], Bool}
use yscript.Value.{Ptr}
use yscript.Interp.{Machine, Vm, Outcome, returns, fails}
use yscript.Interp.Run.{step}
use yscript.Interp.Chain.{Opens, end}
use yscript.Interp.Chain.Insert.{HasOpen}
use yscript.Interp.Keeps.{Goes}
use yscript.Interp.Keeps.Sorted.{IsOpen}
use yscript.Interp.Keeps.Run.{Keeps-step}

-- A machine after any number of instructions, of which the last may have ended the script or with a
-- runtime error.
pub data Reaches (machine : Machine) (vm : Vm) : Vm → Type 0 where
  start : Reaches machine vm vm
  executed :
      {vm' vm'' : Vm} (ended : Bool)
      → Reaches machine vm vm'
      → step machine vm' ≡ returns ended vm''
      → Reaches machine vm vm''
  failed :
      {vm' vm'' : Vm}
      → Reaches machine vm vm'
      → step machine vm' ≡ fails vm''
      → Reaches machine vm vm''

Reaches-IsOpen :
    (machine : Machine) (vm : Vm) {vm' : Vm}
    → Reaches machine vm vm'
    → IsOpen vm.memory.objects vm.open_upvalues
    → IsOpen vm'.memory.objects vm'.open_upvalues
Reaches-IsOpen machine vm start opens = opens
Reaches-IsOpen machine vm (executed {vm'} ended before e) opens =
    (subst (λ (o : Outcome Bool). Goes vm' o) e ((Keeps-step machine).at vm')).sorted
      (Reaches-IsOpen machine vm before opens)
Reaches-IsOpen machine vm (failed {vm'} {vm''} before e) opens =
    let breaks = subst (λ (o : Outcome Bool). Goes vm' o) e ((Keeps-step machine).at vm') in
    subst (λ (head : Option Ptr). IsOpen vm''.memory.objects head) (sym breaks.no_open)
      ([], end, omega arith)

-- Whatever instructions a machine executes, up to the end of the script or to a runtime error: when the
-- list of the open upvalues was a chain of upvalues for slots that only decrease, it is one afterwards.
pub Reaches-HasOpen :
    (machine : Machine) (vm vm' : Vm) (us : Opens)
    → Reaches machine vm vm'
    → HasOpen vm us
    → (us' : Opens) × HasOpen vm' us'
Reaches-HasOpen machine vm vm' us reached opens =
    let (us', chain, few) = Reaches-IsOpen machine vm reached (us, opens.chain, opens.few) in
    (us', record { chain = chain; few = few })
