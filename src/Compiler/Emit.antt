-- ===== src/Compiler/Emit.antt =====
-- Errors, tokens and emitted code (`errorAt` to `endCompiler` of src/compiler/parser.cc).
use yscript.Prelude.{
  ℕ, zero, suc, ◌+◌, ◌-◌, ◌/◌, ◌%◌, [], ◌∷◌, ◌++◌, Bool, true, false, some, ltb, if◌then◌else◌, set,
  take, drop, length,
}
use yscript.Prelude.Bytes.{Bytes, codes}
use yscript.Value.{Value}
use yscript.Memory.{new_function, copy_string}
use yscript.Chunk.{Chunk, write_chunk, add_constant}
use yscript.OpCode.{OpCode, byte_of, op_loop, op_get_local, op_nil, op_return, op_constant}
use yscript.Scanner.{Token, TokenType, is_type}
use yscript.Scanner.Scan.{scan_token}
use yscript.Compiler.{
  Local, FunctionType, type_function, type_initializer, type_script, Compiler, Place, at_end,
  nowhere, at_text, State, M, ◌>>=◌, ◌>>◌, pure, fail, get, modify, when, current_compiler,
  modify_compiler, current_function, set_function, in_memory,
}

-- The bytes of a token.
abbrev pub text_of : Token → Bytes
text_of t = take t.length t.start

abbrev pub place_of : Token → Place
place_of t =
    if is_type t.type TokenType.eof
    then at_end
    else if is_type t.type TokenType.error
    then nowhere
    else at_text (text_of t)

-- In panic mode an error is not reported, and changes nothing.
unfoldable pub error_at : Token → Bytes → State → State
unfolding is_type
error_at token message s = if s.panic_mode then s else record s {
  panic_mode = true;
  had_error = true;
  reports =
      s.reports ++ record { line = token.line; place = place_of token; message = message } ∷ [];
}

unfoldable pub error : Bytes → M (Unit {0})
unfolding error_at
error message = modify λ s. error_at s.previous message s

unfoldable pub error_at_current : Bytes → M (Unit {0})
unfolding error_at
error_at_current message = modify λ s. error_at s.current message s

-- The loop of `advance`: tokens up to the first that is no error.
unfoldable pub advance_loop : ℕ → M (Unit {0})
unfolding scan_token error_at_current is_type
advance_loop zero = fail
advance_loop (suc f) = do
  modify (λ s.
      let (token, scanner) = scan_token s.scanner in
      record s { current = token; scanner = scanner })
  s ← get
  let again = error_at_current (text_of s.current) >> advance_loop f
  if is_type s.current.type TokenType.error then again else pure tt

-- Every token but the last takes a byte, so the bytes that are left bound the rounds.
unfoldable pub advance : M (Unit {0})
unfolding advance_loop
advance = do
  modify (λ s. record s { previous = s.current })
  s ← get
  advance_loop (suc (length s.scanner.source))

unfoldable pub check : TokenType → State → Bool
unfolding is_type
check type s = is_type s.current.type type

unfoldable pub consume : TokenType → Bytes → M (Unit {0})
unfolding check advance error_at_current
consume type message = do s ← get; if check type s then advance else error_at_current message

unfoldable pub match : TokenType → M Bool
unfolding check advance
match type = do s ← get; if check type s then advance >> pure true else pure false

-- `emitByte` of a byte that is no opcode.
unfoldable pub emit_raw : ℕ → M (Unit {0})
unfolding current_function set_function write_chunk
emit_raw byte = do
  s ← get
  f ← current_function
  set_function (record f { chunk = write_chunk f.chunk byte s.previous.line })

unfoldable pub emit_byte : OpCode → M (Unit {0})
unfolding emit_raw byte_of
emit_byte op = emit_raw (byte_of op)

unfoldable pub emit_bytes : OpCode → ℕ → M (Unit {0})
unfolding emit_byte
emit_bytes op operand = emit_byte op >> emit_raw operand

unfoldable pub emit_two : OpCode → OpCode → M (Unit {0})
unfolding emit_byte
emit_two op₁ op₂ = emit_byte op₁ >> emit_byte op₂

abbrev pub uint16_max : ℕ
uint16_max = 65535

-- `(n >> 8) & 0xff` and `n & 0xff`
abbrev pub high_byte : ℕ → ℕ
high_byte n = n / 256 % 256

abbrev pub low_byte : ℕ → ℕ
low_byte n = n % 256

unfoldable pub code_count : M ℕ
unfolding current_function
code_count = do f ← current_function; pure (f.chunk.count)

unfoldable pub emit_loop : ℕ → M (Unit {0})
unfolding emit_byte code_count error
emit_loop loop_start = do
  emit_byte op_loop
  count ← code_count
  let offset = count - loop_start + 2
  when (ltb uint16_max offset) (error (codes "Loop body too large."))
  emit_raw (high_byte offset)
  emit_raw (low_byte offset)

unfoldable pub emit_jump : OpCode → M ℕ
unfolding emit_byte code_count
emit_jump instruction = do
  emit_byte instruction
  emit_raw 0xff
  emit_raw 0xff
  count ← code_count
  pure (count - 2)

-- The two bytes of a distance, over those at `offset`.
unfoldable pub patch_code : ℕ → ℕ → Chunk → Chunk
patch_code offset jump c = record c {
  code = set (set c.code offset (high_byte jump)) (offset + 1) (low_byte jump);
}

-- -2 for the two bytes of the distance itself
unfoldable pub patch_jump : ℕ → M (Unit {0})
unfolding current_function set_function error patch_code
patch_jump offset = do
  f₀ ← current_function
  let jump = f₀.chunk.count - offset - 2
  when (ltb uint16_max jump) (error (codes "Too much code to jump over."))
  f ← current_function
  set_function (record f { chunk = patch_code offset jump f.chunk })

unfoldable pub emit_return : M (Unit {0})
unfolding current_compiler emit_bytes emit_byte
emit_return = do
  c ← current_compiler
  elim c.type [ type_initializer ↦ emit_bytes op_get_local 0 | _ ↦ emit_byte op_nil ]
  emit_byte op_return

abbrev pub uint8_max : ℕ
uint8_max = 255

unfoldable pub make_constant : Value → M ℕ
unfolding current_function set_function add_constant error
make_constant value = do
  f ← current_function
  let (constant, chunk) = add_constant f.chunk value
  set_function (record f { chunk = chunk })
  if ltb uint8_max constant
      then error (codes "Too many constants in one chunk.") >> pure 0
      else pure constant

unfoldable pub emit_constant : Value → M (Unit {0})
unfolding make_constant emit_bytes
emit_constant value = do constant ← make_constant value; emit_bytes op_constant constant

abbrev pub this_token : Token
this_token = record { type = TokenType.left_paren; start = codes "this"; length = 4; line = 0 }

-- Slot 0: `this`, and in a plain function a name that no source text has.
abbrev pub slot_zero : FunctionType → Local
slot_zero type_function = record {
  name = record this_token { start = codes ""; length = 0 };
  depth = some 0;
  is_captured = false;
}
slot_zero _ = record { name = this_token; depth = some 0; is_captured = false }

unfoldable pub name_function : M (Unit {0})
unfolding copy_string current_function set_function
name_function = do
  s ← get
  name ← in_memory (copy_string (text_of s.previous))
  f ← current_function
  set_function (record f { name = some name })

unfoldable pub init_compiler : FunctionType → M (Unit {0})
unfolding new_function name_function modify_compiler
init_compiler type = do
  f ← in_memory (λ m. some (new_function m))
  modify (λ s. record s {
    compilers =
        record { function = f; type = type; locals = []; upvalues = []; scope_depth = 0 }
        ∷ s.compilers;
  })
  elim type [ type_script ↦ pure tt | _ ↦ name_function ]
  modify_compiler (λ c. record c { locals = slot_zero type ∷ c.locals })

-- The compiler that ends, with its function; the listing that a build for tracing prints is left
-- out.
unfoldable pub end_compiler : M Compiler
unfolding emit_return current_compiler
end_compiler = do
  emit_return
  c ← current_compiler
  modify (λ s. record s { compilers = drop 1 s.compilers })
  pure c
