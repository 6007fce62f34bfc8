-- ===== src/Compiler/Jumps.antt =====
-- Jumps: the distances that `patchJump` and `emitLoop` of src/compiler/parser.cc write, as the
-- interpreter reads them.
use yscript.Prelude.{
  ℕ, ◌+◌, ◌-◌, ◌*◌, ◌≤◌, ◌<◌, ◌≡◌, ◌≢◌, refl, sym, ap, ◌∙◌, List, [], ◌∷◌, ◌++◌, false, some, arith,
  ltb, length, get_elem?, get_or, set, length-set, length-append, get_elem?-set_self,
  get_or-set_self, get_or-set_ne, get_or-take, get_elem?-lt, suc-add,
}
use mathlib.Core.List.{append_assoc}
use native.Mathlib.Nat.{zero-add}
use yscript.Chunk.{Chunk, write_chunk}
use yscript.Chunk.Contents.{IsValid, bytes_of, length-bytes_of, write_chunk-append}
use yscript.Memory.{ObjFunction, function}
use yscript.OpCode.{byte_of, op_loop}
use yscript.Compiler.{Compiler, State, ◌>>=◌, current_compiler, current_function, set_function}
use yscript.Compiler.Emit.{
  uint16_max, high_byte, low_byte, patch_code, patch_jump, emit_raw, emit_byte, code_count,
  emit_loop,
}
use yscript.Interp.{read_short}

short_bytes : (n : ℕ) → n ≤ 65535 → high_byte n * 256 + low_byte n ≡ n
short_bytes n h = omega arith

-- The compiler at the head writes the function `f`.
pub record Writes (s : State) (f : ObjFunction) : Type 0 where
  pub compiler : Compiler
  pub enclosing : List Compiler
  pub head : s.compilers ≡ compiler ∷ enclosing
  pub object : get_elem? s.memory.objects compiler.function ≡ some (function f)

module _ (s : State) (f : ObjFunction) (w : Writes s f) where
  current_compiler-Writes : current_compiler s ≡ some (w.compiler, s)
  unfolding current_compiler
  current_compiler-Writes = rw (w.head)

  pub current_function-Writes : current_function s ≡ some (f, s)
  unfolding current_function
  current_function-Writes = rw (current_compiler-Writes, ◌>>=◌, w.object)

  -- The state in which that function is `g`.
  abbrev pub with_function : ObjFunction → State
  with_function g = record s {
    memory = record (s.memory) { objects = set s.memory.objects w.compiler.function (function g) };
  }

  pub set_function-Writes : (g : ObjFunction) → set_function g s ≡ some (tt, with_function g)
  unfolding set_function
  set_function-Writes g = rw (current_compiler-Writes, ◌>>=◌)

  pub with_function-Writes : (g : ObjFunction) → Writes (with_function g) g
  with_function-Writes g = record {
    compiler = w.compiler;
    enclosing = w.enclosing;
    head = w.head;
    object =
        get_elem?-set_self s.memory.objects w.compiler.function (function g)
          (get_elem?-lt s.memory.objects _ w.object);
  }

-- The two bytes at `i` are there after `patchJump`.
patch_code-short :
    (c : Chunk) (i n : ℕ)
    → i + 1 < length c.code
    → n ≤ 65535
    → read_short (patch_code i n c).code i ≡ n
unfolding patch_code read_short
patch_code-short c i n h le =
    rw
      (
        get_or-set_ne (set c.code i (high_byte n)) (i + 1) i (low_byte n) 0 (λ e. omega arith),
        get_or-set_self c.code i (high_byte n) 0 (omega arith),
        get_or-set_self (set c.code i (high_byte n)) (i + 1) (low_byte n) 0
            (omega (arith, length-set c.code i (high_byte n))),
      )
      (short_bytes n le)

patch_code-IsValid : (c : Chunk) (i n : ℕ) → IsValid c → IsValid (patch_code i n c)
unfolding patch_code
patch_code-IsValid c i n v = record {
  code = length-set _ (i + 1) _ ∙ length-set c.code i _ ∙ v.code;
  lines = v.lines;
  fits = v.fits;
  constants = v.constants;
}

patch_code-rest :
    (c : Chunk) (i n j : ℕ)
    → i ≢ j
    → i + 1 ≢ j
    → get_or (patch_code i n c).code j 0 ≡ get_or c.code j 0
unfolding patch_code
patch_code-rest c i n j ne ne' = get_or-set_ne _ (i + 1) j _ 0 ne' ∙ get_or-set_ne c.code i j _ 0 ne

-- `patchJump` of an instruction whose operand stands at `offset`, with at most 65535 bytes behind
-- the operand, ends with no error; a jump by the distance that the interpreter then reads there
-- leads to the end of the code, and no other byte is changed.
pub patch_jump-lands :
    (s : State) (f : ObjFunction) (offset : ℕ)
    → Writes s f
    → IsValid f.chunk
    → offset + 2 ≤ f.chunk.count
    → f.chunk.count ≤ offset + 2 + 65535
    → (s' : State) × (g : ObjFunction) × (patch_jump offset s ≡ some (tt, s'))
      × Writes s' g
      × IsValid g.chunk
      × (s'.had_error ≡ s.had_error)
      × (g.chunk.count ≡ f.chunk.count)
      × (offset + 2 + read_short g.chunk.code offset ≡ f.chunk.count)
      × ((j : ℕ) → offset ≢ j → offset + 1 ≢ j → get_or g.chunk.code j 0 ≡ get_or f.chunk.code j 0)
unfolding patch_jump patch_code
patch_jump-lands s f offset w v behind near =
    let jump = f.chunk.count - offset - 2 in
    let g = record f { chunk = patch_code offset jump f.chunk } in
    let small : ltb uint16_max jump ≡ false = ground arith in
    (
      with_function s f w g,
      g,
      rw (
        current_function-Writes s f w,
        ◌>>=◌,
        small,
        current_function-Writes s f w,
        set_function-Writes s f w g,
      ),
      with_function-Writes s f w g,
      patch_code-IsValid f.chunk offset jump v,
      refl,
      refl,
      ap (λ n. offset + 2 + n)
            (patch_code-short f.chunk offset jump (omega (arith, v.code, v.fits)) (omega arith))
          ∙ omega arith,
      patch_code-rest f.chunk offset jump,
    )

-- A run from `s` to `s'` that appends `bytes` to the code of `f`, the function then being `g`.
pub record Appended (s : State) (f : ObjFunction) (bytes : List ℕ) (s' : State) (g : ObjFunction)
    : Type 0 where
  pub writes : Writes s' g
  pub valid : IsValid g.chunk
  pub code : bytes_of g.chunk ≡ bytes_of f.chunk ++ bytes
  pub counted : g.chunk.count ≡ f.chunk.count + length bytes
  pub constants : g.chunk.constants ≡ f.chunk.constants
  pub errors : s'.had_error ≡ s.had_error

pub emit_raw-Appended :
    (s : State) (f : ObjFunction) (byte : ℕ)
    → Writes s f
    → IsValid f.chunk
    → (s' : State) × (g : ObjFunction) × (emit_raw byte s ≡ some (tt, s'))
      × Appended s f (byte ∷ []) s' g
unfolding emit_raw write_chunk
emit_raw-Appended s f byte w v =
    let g = record f { chunk = write_chunk f.chunk byte s.previous.line } in
    let (valid, code, _, _) = write_chunk-append f.chunk byte s.previous.line v in
    (
      with_function s f w g,
      g,
      rw (◌>>=◌, current_function-Writes s f w, set_function-Writes s f w g),
      record {
        writes = with_function-Writes s f w g;
        valid = valid;
        code = code;
        counted = refl;
        constants = refl;
        errors = refl;
      },
    )

-- Two runs one after the other.
module _ {s s₁ s₂ : State} {f g₁ g₂ : ObjFunction} {bytes more : List ℕ} where
  pub both-Appended :
      Appended s f bytes s₁ g₁ → Appended s₁ g₁ more s₂ g₂ → Appended s f (bytes ++ more) s₂ g₂
  both-Appended a b = record {
    writes = b.writes;
    valid = b.valid;
    code = b.code ∙ ap (λ l. l ++ more) a.code ∙ append_assoc (bytes_of f.chunk) bytes more;
    counted = omega (arith, a.counted, b.counted, length-append bytes more);
    constants = b.constants ∙ a.constants;
    errors = b.errors ∙ a.errors;
  }

get_or-append : (xs ys : List ℕ) (i : ℕ) → get_or (xs ++ ys) (length xs + i) 0 ≡ get_or ys i 0
get_or-append [] ys i = rw zero-add
get_or-append (x ∷ xs) ys i = rw suc-add (get_or-append xs ys i)

-- What is read behind the old code is what has been appended.
pub Appended-byte :
    {s s' : State} {f g : ObjFunction} {bytes : List ℕ}
    → IsValid f.chunk
    → Appended s f bytes s' g
    → (i : ℕ) → i < length bytes
    → get_or g.chunk.code (f.chunk.count + i) 0 ≡ get_or bytes i 0
Appended-byte {f = f} {g = g} {bytes = bytes} v a i h =
    let size = length-bytes_of f.chunk v in
    sym (get_or-take g.chunk.count (f.chunk.count + i) g.chunk.code 0 (omega (arith, a.counted)))
    ∙ ap (λ l. get_or l (f.chunk.count + i) 0) a.code
    ∙ ap (λ n. get_or (bytes_of f.chunk ++ bytes) (n + i) 0) (sym size)
    ∙ get_or-append (bytes_of f.chunk) bytes i

Appended-short :
    {s s' : State} {f g : ObjFunction} (op n : ℕ)
    → IsValid f.chunk
    → Appended s f (op ∷ high_byte n ∷ low_byte n ∷ []) s' g
    → n ≤ 65535
    → read_short g.chunk.code (f.chunk.count + 1) ≡ n
unfolding read_short
Appended-short {f = f} {g = g} op n v a le =
    let next : f.chunk.count + 1 + 1 ≡ f.chunk.count + 2 = omega arith in
    rw (next, Appended-byte v a 1 (omega arith), Appended-byte v a 2 (omega arith))
      (short_bytes n le)

-- `emitLoop` back to `start`, at most 65532 bytes before the end of the code, ends with no error and
-- appends the instruction and two bytes of operand; a jump back from behind the operand by the
-- distance that the interpreter then reads leads to `start`.
pub emit_loop-lands :
    (s : State) (f : ObjFunction) (start : ℕ)
    → Writes s f
    → IsValid f.chunk
    → start ≤ f.chunk.count
    → f.chunk.count ≤ start + 65532
    → (s' : State) × (g : ObjFunction) × (emit_loop start s ≡ some (tt, s'))
      × Writes s' g
      × IsValid g.chunk
      × (s'.had_error ≡ s.had_error)
      × (high low : ℕ) × (bytes_of g.chunk ≡ bytes_of f.chunk ++ byte_of op_loop ∷ high ∷ low ∷ [])
      × (g.chunk.count ≡ start + read_short g.chunk.code (f.chunk.count + 1))
unfolding emit_loop emit_byte code_count
emit_loop-lands s f start w v back near =
    let (s₁, g₁, run₁, a₁) = emit_raw-Appended s f (byte_of op_loop) w v in
    let offset = g₁.chunk.count - start + 2 in
    let e₁ : g₁.chunk.count ≡ f.chunk.count + 1 = a₁.counted in
    let small : ltb uint16_max offset ≡ false = ground arith in
    let (s₂, g₂, run₂, a₂) = emit_raw-Appended s₁ g₁ (high_byte offset) a₁.writes a₁.valid in
    let (s₃, g₃, run₃, a₃) = emit_raw-Appended s₂ g₂ (low_byte offset) a₂.writes a₂.valid in
    let a = both-Appended (both-Appended a₁ a₂) a₃ in
    let e₃ : g₃.chunk.count ≡ f.chunk.count + 3 = a.counted in
    (
      s₃,
      g₃,
      rw (run₁, ◌>>=◌, current_function-Writes s₁ g₁ a₁.writes, small, run₂, run₃),
      a.writes,
      a.valid,
      a.errors,
      high_byte offset,
      low_byte offset,
      a.code,
      omega (arith, Appended-short (byte_of op_loop) offset v a (omega arith)),
    )
