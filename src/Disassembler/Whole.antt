-- ===== src/Disassembler/Whole.antt =====
-- The listing of a whole chunk (src/disassembler/disassembler.cc), one instruction after the other.
use mathlib.Core.Path.{subst}
use mathlib.Core.List.{append_assoc, append_cancel_right}
use yscript.Prelude.{
  ℕ, zero, suc, ◌+◌, ◌-◌, ◌≤◌, ◌<◌, ◌≡◌, sym, ap, ◌∙◌, List, [], ◌∷◌, ◌++◌, true, false, ◌&&◌,
  Option, none, some, arith, ◌==◌, ltb, if◌then◌else◌, length, get_or, take, drop, take-append-drop,
}
use yscript.Prelude.Bytes.{Bytes}
use yscript.Chunk.{Chunk}
use yscript.Chunk.Contents.{IsValid, bytes_of}
use yscript.Table.{◌>>=◌}
use yscript.OpCode.{OpCode, byte_of, decode-byte_of}
use yscript.Memory.{Obj}
use yscript.Disassembler.{
  plus, minus, Text, Line, disassemble_opcode, line_mark, disassemble_instruction, disassemble_loop,
  disassemble_chunk,
}
use yscript.Disassembler.Assemble.{
  Shape, plain, one_constant, one_byte, one_jump, one_call, one_closure, shape, assemble_text,
  assemble, AreBytes, Fits, IsCode, ended, instruction,
}
use yscript.Disassembler.Listed.{
  Listed, simple-Listed, byte-Listed, constant-Listed, invoke-Listed, jump-Listed, closure-Listed,
  get_elem?-get_or,
}

module _ (objects : List Obj) (chunk : Chunk) (small : AreBytes chunk.code) (offset next : ℕ)
    (size : next ≤ length chunk.code) where
  moved :
      {n : ℕ} {r : Option (Text × ℕ)}
      → next ≡ n
      → (n ≤ length chunk.code → Listed chunk.code offset n r)
      → Listed chunk.code offset next r
  moved {r = r} e listed =
      subst (λ (k : ℕ). k ≤ length chunk.code → Listed chunk.code offset k r) (sym e) listed size

  disassemble_opcode-Listed :
      (op : OpCode)
      → get_or chunk.code offset 0 ≡ byte_of op
      → Fits objects chunk (shape op) offset next
      → Listed chunk.code offset next (disassemble_opcode objects op chunk offset)
  unfolding disassemble_opcode
  disassemble_opcode-Listed OpCode.op_constant here (_, found, e) =
      moved e (constant-Listed chunk OpCode.op_constant offset here found)
  disassemble_opcode-Listed OpCode.op_nil here e =
      moved e (simple-Listed chunk OpCode.op_nil offset here)
  disassemble_opcode-Listed OpCode.op_true here e =
      moved e (simple-Listed chunk OpCode.op_true offset here)
  disassemble_opcode-Listed OpCode.op_false here e =
      moved e (simple-Listed chunk OpCode.op_false offset here)
  disassemble_opcode-Listed OpCode.op_pop here e =
      moved e (simple-Listed chunk OpCode.op_pop offset here)
  disassemble_opcode-Listed OpCode.op_get_local here e =
      moved e (byte-Listed chunk OpCode.op_get_local offset here)
  disassemble_opcode-Listed OpCode.op_set_local here e =
      moved e (byte-Listed chunk OpCode.op_set_local offset here)
  disassemble_opcode-Listed OpCode.op_get_global here (_, found, e) =
      moved e (constant-Listed chunk OpCode.op_get_global offset here found)
  disassemble_opcode-Listed OpCode.op_define_global here (_, found, e) =
      moved e (constant-Listed chunk OpCode.op_define_global offset here found)
  disassemble_opcode-Listed OpCode.op_set_global here (_, found, e) =
      moved e (constant-Listed chunk OpCode.op_set_global offset here found)
  disassemble_opcode-Listed OpCode.op_get_upvalue here e =
      moved e (byte-Listed chunk OpCode.op_get_upvalue offset here)
  disassemble_opcode-Listed OpCode.op_set_upvalue here e =
      moved e (byte-Listed chunk OpCode.op_set_upvalue offset here)
  disassemble_opcode-Listed OpCode.op_get_property here (_, found, e) =
      moved e (constant-Listed chunk OpCode.op_get_property offset here found)
  disassemble_opcode-Listed OpCode.op_set_property here (_, found, e) =
      moved e (constant-Listed chunk OpCode.op_set_property offset here found)
  disassemble_opcode-Listed OpCode.op_get_super here (_, found, e) =
      moved e (constant-Listed chunk OpCode.op_get_super offset here found)
  disassemble_opcode-Listed OpCode.op_equal here e =
      moved e (simple-Listed chunk OpCode.op_equal offset here)
  disassemble_opcode-Listed OpCode.op_greater here e =
      moved e (simple-Listed chunk OpCode.op_greater offset here)
  disassemble_opcode-Listed OpCode.op_less here e =
      moved e (simple-Listed chunk OpCode.op_less offset here)
  disassemble_opcode-Listed OpCode.op_add here e =
      moved e (simple-Listed chunk OpCode.op_add offset here)
  disassemble_opcode-Listed OpCode.op_subtract here e =
      moved e (simple-Listed chunk OpCode.op_subtract offset here)
  disassemble_opcode-Listed OpCode.op_multiply here e =
      moved e (simple-Listed chunk OpCode.op_multiply offset here)
  disassemble_opcode-Listed OpCode.op_divide here e =
      moved e (simple-Listed chunk OpCode.op_divide offset here)
  disassemble_opcode-Listed OpCode.op_not here e =
      moved e (simple-Listed chunk OpCode.op_not offset here)
  disassemble_opcode-Listed OpCode.op_negate here e =
      moved e (simple-Listed chunk OpCode.op_negate offset here)
  disassemble_opcode-Listed OpCode.op_print here e =
      moved e (simple-Listed chunk OpCode.op_print offset here)
  disassemble_opcode-Listed OpCode.op_jump here e =
      moved e (jump-Listed chunk OpCode.op_jump offset here plus small)
  disassemble_opcode-Listed OpCode.op_jump_if_false here e =
      moved e (jump-Listed chunk OpCode.op_jump_if_false offset here plus small)
  disassemble_opcode-Listed OpCode.op_loop here e =
      moved e (jump-Listed chunk OpCode.op_loop offset here minus small)
  disassemble_opcode-Listed OpCode.op_call here e =
      moved e (byte-Listed chunk OpCode.op_call offset here)
  disassemble_opcode-Listed OpCode.op_invoke here (_, found, e) =
      moved e (invoke-Listed chunk OpCode.op_invoke offset here found)
  disassemble_opcode-Listed OpCode.op_super_invoke here (_, found, e) =
      moved e (invoke-Listed chunk OpCode.op_super_invoke offset here found)
  disassemble_opcode-Listed OpCode.op_closure here (_, _, found, at, flags, e) =
      moved e (closure-Listed objects chunk OpCode.op_closure offset here found at flags)
  disassemble_opcode-Listed OpCode.op_close_upvalue here e =
      moved e (simple-Listed chunk OpCode.op_close_upvalue offset here)
  disassemble_opcode-Listed OpCode.op_return here e =
      moved e (simple-Listed chunk OpCode.op_return offset here)
  disassemble_opcode-Listed OpCode.op_class here (_, found, e) =
      moved e (constant-Listed chunk OpCode.op_class offset here found)
  disassemble_opcode-Listed OpCode.op_inherit here e =
      moved e (simple-Listed chunk OpCode.op_inherit offset here)
  disassemble_opcode-Listed OpCode.op_method here (_, found, e) =
      moved e (constant-Listed chunk OpCode.op_method offset here found)

-- What `disassemble_instruction` answers for a whole instruction.
record ListedLine (code : List ℕ) (offset next : ℕ) (r : Option (Line × ℕ)) : Type 0 where
  line : Line
  run : r ≡ some (line, next)
  assembled : drop offset code ≡ assemble_text (line.text) ++ drop next code

pub line_mark_lem :
    (chunk : Chunk) (offset : ℕ)
    → offset < length chunk.lines
    → (mark : Option ℕ) × (line_mark chunk offset ≡ some mark)
unfolding line_mark
line_mark_lem chunk offset h = (
  if ltb 0 offset && (get_or chunk.lines offset 0 == get_or chunk.lines (offset - 1) 0)
      then none
      else some (get_or chunk.lines offset 0),
  rw (
    get_elem?-get_or chunk.lines offset h,
    ◌>>=◌,
    get_elem?-get_or chunk.lines (offset - 1) (omega arith),
  ),
)

module _ (objects : List Obj) (chunk : Chunk) (v : IsValid chunk)
    (small : AreBytes chunk.code) where
  disassemble_instruction-Listed :
      (op : OpCode) (offset next : ℕ)
      → get_or chunk.code offset 0 ≡ byte_of op
      → Fits objects chunk (shape op) offset next
      → offset < chunk.count
      → next ≤ chunk.count
      → ListedLine chunk.code offset next (disassemble_instruction objects chunk offset)
  unfolding disassemble_instruction
  disassemble_instruction-Listed op offset next here fits within h =
      let l =
        disassemble_opcode-Listed objects chunk small offset next (omega (arith, v.code, v.fits)) op
          here fits in
      let (mark, marked) = line_mark_lem chunk offset (omega (arith, v.lines, v.fits)) in
      record {
        line = record { offset = offset; line = mark; text = l.text };
        run = rw (
          marked,
          ◌>>=◌,
          get_elem?-get_or chunk.code offset (omega (arith, v.code, v.fits)),
          ◌>>=◌,
          here,
          decode-byte_of op,
          l.run,
        );
        assembled = l.assembled;
      }

  shape-onward : (s : Shape) (offset next : ℕ) → Fits objects chunk s offset next → offset < next
  shape-onward plain offset next e = omega arith
  shape-onward one_constant offset next (_, _, e) = omega arith
  shape-onward one_byte offset next e = omega arith
  shape-onward one_jump offset next e = omega arith
  shape-onward one_call offset next (_, _, e) = omega arith
  shape-onward one_closure offset next (_, _, _, _, _, e) = omega arith

  disassemble_loop-assemble :
      (fuel offset : ℕ)
      → chunk.count ≤ offset + fuel
      → IsCode objects chunk offset
      → (lines : List Line) × (disassemble_loop fuel objects chunk offset ≡ some lines)
        × (drop offset chunk.code ≡ assemble lines ++ drop chunk.count chunk.code)
  unfolding disassemble_loop
  disassemble_loop-assemble zero offset enough (ended e) =
      let over : ltb offset chunk.count ≡ false = ground arith in ([], rw over, rw e)
  disassemble_loop-assemble (suc fuel) offset enough (ended e) =
      let over : ltb offset chunk.count ≡ false = ground arith in ([], rw over, rw e)
  disassemble_loop-assemble zero offset enough (instruction op next here fits h rest) =
      let onward = shape-onward (shape op) offset next fits in absurd (omega arith)
  disassemble_loop-assemble (suc fuel) offset enough (instruction op next here fits h rest) =
      let onward = shape-onward (shape op) offset next fits in
      let inside : ltb offset chunk.count ≡ true = ground arith in
      let l = disassemble_instruction-Listed op offset next here fits (omega arith) h in
      let (lines, run, assembled) = disassemble_loop-assemble fuel next (omega arith) rest in
      (
        l.line ∷ lines,
        rw (inside, l.run, ◌>>=◌, run),
        l.assembled
            ∙ ap (λ xs. assemble_text (l.line.text) ++ xs) assembled
            ∙ sym (append_assoc (assemble_text (l.line.text)) (assemble lines) _),
      )

take-prefix :
    {A : Type 0} (n : ℕ) (xs front : List A)
    → n ≤ length xs
    → xs ≡ front ++ drop n xs
    → front ≡ take n xs
take-prefix n xs front h e =
    append_cancel_right front (take n xs) (drop n xs) (sym e ∙ sym (take-append-drop n xs))

-- Of a well formed chunk whose code is one whole instruction after the other, each with its constants,
-- disassembleChunk ends without reading outside an array, and its listing, assembled again line by
-- line, is the code.
pub disassemble_chunk-assemble :
    (objects : List Obj) (chunk : Chunk) (name : Bytes)
    → IsValid chunk
    → AreBytes chunk.code
    → IsCode objects chunk 0
    → (lines : List Line) × (disassemble_chunk objects chunk name ≡ some (name, lines))
      × (assemble lines ≡ bytes_of chunk)
unfolding disassemble_chunk
disassemble_chunk-assemble objects chunk name v small code =
    let (lines, run, assembled) =
      disassemble_loop-assemble objects chunk v small chunk.count 0 (omega arith) code in
    (
      lines,
      rw run,
      take-prefix chunk.count chunk.code (assemble lines) (omega (arith, v.code, v.fits)) assembled,
    )
