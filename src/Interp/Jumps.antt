-- ===== src/Interp/Jumps.antt =====
-- The jumps that src/compiler/parser.cc writes, as src/vm/interp/interp.cc executes them.
use yscript.Prelude.{
  ℕ, ◌+◌, ◌-◌, ◌≤◌, ◌<◌, ◌≡◌, ap, ◌∙◌, List, ◌∷◌, true, some, arith, ltb, leb, length,
  length-append, [],
}
use yscript.Chunk.Contents.{IsValid, bytes_of, length-bytes_of}
use yscript.Memory.{ObjFunction}
use yscript.OpCode.{byte_of, op_loop}
use yscript.Compiler.{State}
use yscript.Compiler.Emit.{patch_jump, emit_loop}
use yscript.Compiler.Jumps.{Writes, patch_jump-lands, emit_loop-lands}
use yscript.Interp.{CallFrame, Vm, returns, ◌>>=◌, ◌>>◌, pure, function_of, read_short}
use yscript.Interp.Operands.{current_frame, current_chunk, set_ip, read_offset}
use yscript.Interp.Run.{jump, loop_back}

-- The current frame executes the function `f`, at `ip`.
pub record Runs (vm : Vm) (f : ObjFunction) (ip : ℕ) : Type 0 where
  pub frame : CallFrame
  pub callers : List CallFrame
  pub head : vm.frames ≡ frame ∷ callers
  pub code : function_of vm.memory.objects frame.closure ≡ some f
  pub place : frame.ip ≡ ip

-- The machine with the current frame at `ip`.
abbrev pub moved_to : (vm : Vm) {f : ObjFunction} {from : ℕ} → Runs vm f from → ℕ → Vm
moved_to vm r ip = record vm { frames = record (r.frame) { ip = ip } ∷ r.callers }

module _ (vm : Vm) (f : ObjFunction) (ip : ℕ) (r : Runs vm f ip) where
  pub current_frame-Runs : current_frame vm ≡ returns (r.frame) vm
  unfolding current_frame
  current_frame-Runs = rw (r.head)

  pub current_chunk-Runs : current_chunk vm ≡ returns f.chunk vm
  unfolding current_chunk
  current_chunk-Runs = rw (current_frame-Runs, ◌>>=◌, r.code)

  pub set_ip-Runs : (to : ℕ) → set_ip to vm ≡ returns tt (moved_to vm r to)
  unfolding set_ip
  set_ip-Runs to = rw (r.head)

  pub read_offset-Runs :
      ip + 1 < length f.chunk.code
      → read_offset vm ≡ returns (read_short f.chunk.code ip) (moved_to vm r (ip + 2))
  unfolding read_offset set_ip
  read_offset-Runs h =
      let moved : (set_ip (ip + 2) >> pure (read_short f.chunk.code ip)) vm
          ≡ returns (read_short f.chunk.code ip) (moved_to vm r (ip + 2)) =
        rw (r.head) in
      let within : ltb (r.frame.ip + 1) (length f.chunk.code) ≡ true = ground (arith, r.place) in
      rw (current_frame-Runs, ◌>>=◌, current_chunk-Runs, within, r.place) moved

module _ (vm : Vm) (f : ObjFunction) (ip : ℕ) (r : Runs vm f ip)
    (h : ip + 1 < length f.chunk.code) where
  pub jump-Runs : jump vm ≡ returns tt (moved_to vm r (ip + 2 + read_short f.chunk.code ip))
  unfolding jump current_frame set_ip
  jump-Runs = rw (read_offset-Runs vm f ip r h, ◌>>=◌)

  pub loop_back-Runs :
      (to : ℕ)
      → ip + 2 ≡ to + read_short f.chunk.code ip
      → loop_back vm ≡ returns tt (moved_to vm r to)
  unfolding loop_back current_frame set_ip
  loop_back-Runs to e =
      let fits : leb (read_short f.chunk.code ip) (ip + 2) ≡ true = ground arith in
      let back : ip + 2 - read_short f.chunk.code ip ≡ to = omega arith in
      rw (read_offset-Runs vm f ip r h, ◌>>=◌, fits, ◌>>=◌, back)

-- A forward jump that `patchJump` has completed, with at most 65535 bytes of code behind its operand, executed
-- in any machine that runs the function as it is then, goes to where the code ended when it was
-- completed.
pub jump-patch_jump :
    (s : State) (f : ObjFunction) (offset : ℕ)
    → Writes s f
    → IsValid f.chunk
    → offset + 2 ≤ f.chunk.count
    → f.chunk.count ≤ offset + 2 + 65535
    → (s' : State) × (g : ObjFunction) × (patch_jump offset s ≡ some (tt, s'))
      × Writes s' g
      × ((vm : Vm) (r : Runs vm g offset) → jump vm ≡ returns tt (moved_to vm r f.chunk.count))
jump-patch_jump s f offset w v behind near =
    let (s', g, run, w', v', _, size, lands, _) = patch_jump-lands s f offset w v behind near in
    (
      s',
      g,
      run,
      w',
      λ vm r.
          jump-Runs vm g offset r (omega (arith, v'.code, v'.fits, size))
          ∙ ap (λ n. returns tt (moved_to vm r n)) lands,
    )

-- A loop that `emitLoop` has written back to a place at most 65532 bytes before the end of the code, executed in
-- any machine that runs the function as it is then, goes back to that place.
pub loop_back-emit_loop :
    (s : State) (f : ObjFunction) (start : ℕ)
    → Writes s f
    → IsValid f.chunk
    → start ≤ f.chunk.count
    → f.chunk.count ≤ start + 65532
    → (s' : State) × (g : ObjFunction) × (emit_loop start s ≡ some (tt, s'))
      × Writes s' g
      × ((vm : Vm) (r : Runs vm g (f.chunk.count + 1))
          → loop_back vm ≡ returns tt (moved_to vm r start))
loop_back-emit_loop s f start w v back near =
    let (s', g, run, w', v', _, high, low, bytes, lands) =
      emit_loop-lands s f start w v back near in
    let size : g.chunk.count ≡ f.chunk.count + 3 = omega (
      arith,
      ap length bytes,
      length-append (bytes_of f.chunk) (byte_of op_loop ∷ high ∷ low ∷ []),
      length-bytes_of f.chunk v,
      length-bytes_of g.chunk v',
    ) in
    (
      s',
      g,
      run,
      w',
      λ vm r.
          loop_back-Runs vm g (f.chunk.count + 1) r (omega (arith, v'.code, v'.fits, size)) start
            (omega (arith, size, lands)),
    )
