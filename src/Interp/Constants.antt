-- ===== src/Interp/Constants.antt =====
-- The constants that src/compiler/parser.cc emits, as src/vm/interp/interp.cc pushes them.
use yscript.Prelude.{
  ℕ, ◌+◌, ◌≤◌, ◌<◌, ◌≡◌, refl, ap, ◌∙◌, ◌∷◌, true, false, some, arith, ltb, length, get_elem?,
}
use yscript.Value.{Value}
use yscript.Chunk.Contents.{IsValid}
use yscript.Memory.{ObjFunction}
use yscript.OpCode.{op_constant, decode-byte_of}
use yscript.Compiler.{State}
use yscript.Compiler.Emit.{emit_constant}
use yscript.Compiler.Jumps.{Writes}
use yscript.Compiler.Constants.{HasConstant, emit_constant-HasConstant}
use yscript.Interp.{Machine, Vm, returns, ◌>>=◌, ◌>>◌, pure, push, stack_max}
use yscript.Interp.Operands.{set_ip, read_byte, read_constant}
use yscript.Interp.Run.{push_constant, execute, step}
use yscript.Interp.Jumps.{Runs, moved_to, current_frame-Runs, current_chunk-Runs}

module _ (vm : Vm) (f : ObjFunction) (ip : ℕ) (r : Runs vm f ip) where
  unfoldable pub Runs-moved_to : (to : ℕ) → Runs (moved_to vm r to) f to
  Runs-moved_to to = record {
    frame = record (r.frame) { ip = to };
    callers = r.callers;
    head = refl;
    code = r.code;
    place = refl;
  }

  pub read_byte-Runs :
      {b : ℕ}
      → get_elem? f.chunk.code ip ≡ some b
      → read_byte vm ≡ returns b (moved_to vm r (ip + 1))
  unfolding read_byte set_ip
  read_byte-Runs {b = b} e =
      let moved : (set_ip (ip + 1) >> pure b) vm ≡ returns b (moved_to vm r (ip + 1)) =
        rw (r.head) in
      let here : get_elem? f.chunk.code r.frame.ip ≡ some b =
        ap (get_elem? f.chunk.code) r.place ∙ e in
      rw (current_frame-Runs vm f ip r, ◌>>=◌, current_chunk-Runs vm f ip r, here, r.place) moved

module _ (machine : Machine) (vm : Vm) (f : ObjFunction) (ip : ℕ) (value : Value) (r : Runs vm f ip)
    (c : HasConstant f ip value) where
  abbrev behind : Vm
  behind = moved_to vm r (ip + 2)

  push_constant-Runs :
      (vm' : Vm) (r' : Runs vm' f (ip + 1))
      → length vm'.stack < stack_max
      → push_constant vm'
        ≡ returns tt (record (moved_to vm' r' (ip + 1 + 1)) { stack = value ∷ vm'.stack })
  unfolding push_constant read_constant push
  push_constant-Runs vm' r' room =
      let test : ltb (length vm'.stack) stack_max ≡ true = ground arith in
      let pushed : push value (moved_to vm' r' (ip + 1 + 1))
          ≡ returns tt (record (moved_to vm' r' (ip + 1 + 1)) { stack = value ∷ vm'.stack }) =
        rw test in
      rw
        (
          read_byte-Runs vm' f (ip + 1) r' c.operand,
          ◌>>=◌,
          current_chunk-Runs (moved_to vm' r' (ip + 1 + 1)) f (ip + 1 + 1)
              (Runs-moved_to vm' f (ip + 1) r' (ip + 1 + 1)),
          ◌>>=◌,
          c.constant,
        )
        pushed

  step-Runs :
      length vm.stack < stack_max
      → step machine vm ≡ returns false (record behind { stack = value ∷ vm.stack })
  unfolding step execute Runs-moved_to
  step-Runs room =
      let next : ip + 1 + 1 ≡ ip + 2 = omega arith in
      let pushed =
        push_constant-Runs (moved_to vm r (ip + 1)) (Runs-moved_to vm f ip r (ip + 1)) room in
      rw (read_byte-Runs vm f ip r c.op, ◌>>=◌, decode-byte_of op_constant, pushed, ◌>>=◌, next)

-- A constant that `emitConstant` has emitted, as the 256th of its function at most: any machine that runs the function as it is
-- then, with room on its stack, pushes the value in one instruction and goes on behind it.
pub step-emit_constant :
    (s : State) (f : ObjFunction) (value : Value)
    → Writes s f
    → IsValid f.chunk
    → f.chunk.constants.count ≤ 255
    → (s' : State) × (g : ObjFunction) × (emit_constant value s ≡ some (tt, s'))
      × Writes s' g
      × ((machine : Machine) (vm : Vm) (r : Runs vm g f.chunk.count)
          → length vm.stack < stack_max
          → step machine vm
            ≡ returns false
                (record (moved_to vm r (f.chunk.count + 2)) { stack = value ∷ vm.stack }))
step-emit_constant s f value w v few =
    let (s', g, run, w', _, _, c) = emit_constant-HasConstant s f value w v few in
    (s', g, run, w', λ machine vm r room. step-Runs machine vm g f.chunk.count value r c room)
