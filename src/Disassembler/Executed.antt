-- ===== src/Disassembler/Executed.antt =====
-- The jumps as src/disassembler/disassembler.cc lists them, against src/vm/interp/interp.cc, which executes them.
use yscript.Prelude.{
  ℕ, ◌+◌, ◌≤◌, ◌<◌, ◌≡◌, refl, List, ◌∷◌, Bool, true, false, some, arith, inl, inr, Bool-cases, leb,
  if◌then◌else◌, length, get_elem?,
}
use yscript.Value.{Value}
use yscript.Chunk.Contents.{IsValid}
use yscript.Table
use yscript.OpCode.{OpCode, op_jump, op_jump_if_false, op_loop, byte_of, decode-byte_of}
use yscript.Memory.{Obj, ObjFunction}
use yscript.Interp.{Machine, Vm, Outcome, returns, stuck, ◌>>=◌, peek, is_falsey, read_short}
use yscript.Interp.Operands.{current_frame, set_ip}
use yscript.Interp.Run.{jump_if_false, loop_back, execute, step}
use yscript.Interp.Jumps.{Runs, moved_to, read_offset-Runs, jump-Runs}
use yscript.Interp.Constants.{Runs-moved_to, read_byte-Runs}
use yscript.Disassembler.{
  ℤ, pos, negsuc, Sign, plus, minus, target, with_jump, Line, jump_instruction, disassemble_opcode,
  disassemble_instruction,
}
use yscript.Disassembler.Listed.{get_elem?-get_or}
use yscript.Disassembler.Whole.{line_mark_lem}

-- The machine goes on at an offset of the code; before its start there is nothing to go on with.
abbrev pub arrives :
    {A : Type 0} (vm : Vm) {f : ObjFunction} {from : ℕ} → Runs vm f from → A → ℤ → Outcome A
arrives vm r a (pos to) = returns a (moved_to vm r to)
arrives vm r a (negsuc n) = stuck

module _ (vm : Vm) (f : ObjFunction) (ip : ℕ) (r : Runs vm f ip)
    (h : ip + 1 < length f.chunk.code) where
  loop_back-arrives :
      loop_back vm ≡ arrives vm r tt (target minus (ip + 2) (read_short f.chunk.code ip))
  unfolding loop_back current_frame set_ip
  loop_back-arrives = elim (Bool-cases (leb (read_short f.chunk.code ip) (ip + 2))) [
    | inl fits ↦ rw (read_offset-Runs vm f ip r h, ◌>>=◌, fits)
    | inr over ↦ rw (read_offset-Runs vm f ip r h, ◌>>=◌, over)
  ]

  jump_if_false-Runs :
      (value : Value) (rest : List Value)
      → vm.stack ≡ value ∷ rest
      → jump_if_false vm ≡ (
          if is_falsey value
          then returns tt (moved_to vm r (ip + 2 + read_short f.chunk.code ip))
          else returns tt (moved_to vm r (ip + 2)))
  unfolding jump_if_false peek current_frame set_ip
  jump_if_false-Runs value rest top = elim (Bool-cases (is_falsey value)) [
    | inl falsey ↦ rw (read_offset-Runs vm f ip r h, ◌>>=◌, top, falsey)
    | inr truthy ↦ rw (read_offset-Runs vm f ip r h, ◌>>=◌, top, truthy)
  ]

pub data IsJump : OpCode → Sign → Type 0 where
  always : IsJump op_jump plus
  on_falsey : IsJump op_jump_if_false plus
  back : IsJump op_loop minus

-- Whether the jump is taken with the value on top of the stack.
abbrev pub taken : OpCode → Value → Bool
taken op_jump_if_false value = is_falsey value
taken _ value = true

module _ (machine : Machine) (vm : Vm) (f : ObjFunction) (offset : ℕ) (r : Runs vm f offset)
    (h : offset + 3 ≤ length f.chunk.code) where
  abbrev onto : Vm
  onto = moved_to vm r (offset + 1)

  abbrev runs_on : Runs onto f (offset + 1)
  runs_on = Runs-moved_to vm f offset r (offset + 1)

  step-jump :
      {op : OpCode} {sign : Sign} (j : IsJump op sign) (value : Value) (rest : List Value)
      → vm.stack ≡ value ∷ rest
      → get_elem? f.chunk.code offset ≡ some (byte_of op)
      → step machine vm ≡ (
          if taken op value
          then arrives vm r false (target sign (offset + 3) (read_short f.chunk.code (offset + 1)))
          else returns false (moved_to vm r (offset + 3)))
  unfolding step execute Runs-moved_to
  step-jump always value rest top here =
      let e : offset + 1 + 2 ≡ offset + 3 = omega arith in
      rw (
        read_byte-Runs vm f offset r here,
        ◌>>=◌,
        decode-byte_of op_jump,
        jump-Runs onto f (offset + 1) runs_on (omega arith),
        ◌>>=◌,
        e,
      )
  step-jump on_falsey value rest top here =
      let e : offset + 1 + 2 ≡ offset + 3 = omega arith in
      elim (Bool-cases (is_falsey value)) [
        | inl falsey ↦ rw (
          read_byte-Runs vm f offset r here,
          ◌>>=◌,
          decode-byte_of op_jump_if_false,
          jump_if_false-Runs onto f (offset + 1) runs_on (omega arith) value rest top,
          falsey,
          ◌>>=◌,
          e,
        )
        | inr truthy ↦ rw (
          read_byte-Runs vm f offset r here,
          ◌>>=◌,
          decode-byte_of op_jump_if_false,
          jump_if_false-Runs onto f (offset + 1) runs_on (omega arith) value rest top,
          truthy,
          ◌>>=◌,
          e,
        )
      ]
  step-jump back value rest top here =
      let e : offset + 1 + 2 ≡ offset + 3 = omega arith in
      elim (Bool-cases (leb (read_short f.chunk.code (offset + 1)) (offset + 3))) [
        | inl fits ↦ rw (
          read_byte-Runs vm f offset r here,
          ◌>>=◌,
          decode-byte_of op_loop,
          loop_back-arrives onto f (offset + 1) runs_on (omega arith),
          e,
          fits,
          ◌>>=◌,
        )
        | inr over ↦ rw (
          read_byte-Runs vm f offset r here,
          ◌>>=◌,
          decode-byte_of op_loop,
          loop_back-arrives onto f (offset + 1) runs_on (omega arith),
          e,
          over,
          ◌>>=◌,
        )
      ]

  jump_instruction-listed :
      (op : OpCode) (sign : Sign)
      → jump_instruction op sign f.chunk offset
        ≡ some (
          with_jump op offset (target sign (offset + 3) (read_short f.chunk.code (offset + 1))),
          offset + 3,
        )
  unfolding jump_instruction read_short
  jump_instruction-listed op sign =
      let e : offset + 1 + 1 ≡ offset + 2 = omega arith in
      let high = get_elem?-get_or f.chunk.code (offset + 1) (omega arith) in
      let low = get_elem?-get_or f.chunk.code (offset + 2) (omega arith) in
      rw (e, high, Table.◌>>=◌, low)

  jump_text :
      {op : OpCode} {sign : Sign} (objects : List Obj)
      → IsJump op sign
      → disassemble_opcode objects op f.chunk offset ≡ jump_instruction op sign f.chunk offset
  unfolding disassemble_opcode
  jump_text objects always = refl
  jump_text objects on_falsey = refl
  jump_text objects back = refl

-- Of a jump within a well formed chunk, disassembleInstruction prints the place to which the
-- interpreter goes from it when the jump is taken; when OP_JUMP_IF_FALSE is not taken, the interpreter goes to the next
-- instruction of the listing. A jump listed to a place before the code gets stuck.
pub step-disassemble_instruction :
    (objects : List Obj) (machine : Machine) (vm : Vm) (f : ObjFunction) (offset : ℕ)
    (r : Runs vm f offset) (op : OpCode) (sign : Sign) (value : Value) (rest : List Value)
    → IsValid f.chunk
    → offset + 3 ≤ f.chunk.count
    → IsJump op sign
    → get_elem? f.chunk.code offset ≡ some (byte_of op)
    → vm.stack ≡ value ∷ rest
    → (line : Line) × (to : ℤ) × (disassemble_instruction objects f.chunk offset
        ≡ some (line, offset + 3))
      × (line.text ≡ with_jump op offset to)
      × (step machine vm ≡ (
          if taken op value
          then arrives vm r false to
          else returns false (moved_to vm r (offset + 3))))
unfolding disassemble_instruction
step-disassemble_instruction objects machine vm f offset r op sign value rest v h j here top =
    let whole : offset + 3 ≤ length f.chunk.code = omega (arith, v.code, v.fits) in
    let (mark, marked) = line_mark_lem f.chunk offset (omega (arith, v.lines, v.fits)) in
    (
      record {
        offset = offset;
        line = mark;
        text =
            with_jump op offset (target sign (offset + 3) (read_short f.chunk.code (offset + 1)));
      },
      target sign (offset + 3) (read_short f.chunk.code (offset + 1)),
      rw (
        marked,
        Table.◌>>=◌,
        here,
        Table.◌>>=◌,
        decode-byte_of op,
        jump_text machine vm f offset r whole objects j,
        jump_instruction-listed machine vm f offset r whole op sign,
      ),
      refl,
      step-jump machine vm f offset r whole j value rest top here,
    )
