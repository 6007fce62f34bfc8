-- ===== src/Disassembler/Listed.antt =====
-- The lines of the listing (src/disassembler/disassembler.cc), one instruction after the other.
use yscript.Prelude.{
  ℕ, zero, suc, ◌+◌, ◌*◌, ◌/◌, ◌%◌, ◌≤◌, ◌<◌, ◌≡◌, refl, ap, List, [], ◌∷◌, ◌++◌, not, Option, some,
  arith, ◌==◌, length, get_elem?, get_or, drop,
}
use yscript.Prelude.Bytes.{Bytes}
use yscript.Value.{Value}
use yscript.Chunk.{Chunk}
use yscript.Table.{◌>>=◌}
use yscript.OpCode.{OpCode, byte_of}
use yscript.Memory.{Obj, ObjFunction}
use yscript.Disassembler.{
  Sign, plus, minus, target, Captured, Text, simple, with_constant, with_arguments, with_byte,
  with_jump, with_upvalues, constant_instruction, invoke_instruction, simple_instruction,
  byte_instruction, jump_instruction, list_upvalues, function_in, closure_instruction,
}
use yscript.Disassembler.Assemble.{
  distance, local_byte, assemble_captured, assemble_text, AreBytes, AreFlags,
}

pub get_elem?-get_or : (xs : List ℕ) (i : ℕ) → i < length xs → get_elem? xs i ≡ some (get_or xs i 0)
get_elem?-get_or [] i h = absurd (omega arith)
get_elem?-get_or (x ∷ xs) zero h = refl
get_elem?-get_or (x ∷ xs) (suc i) h = get_elem?-get_or xs i (omega arith)

drop-get_or : (xs : List ℕ) (i : ℕ) → i < length xs → drop i xs ≡ get_or xs i 0 ∷ drop (suc i) xs
drop-get_or [] i h = absurd (omega arith)
drop-get_or (x ∷ xs) zero h = refl
drop-get_or (x ∷ xs) (suc i) h = drop-get_or xs i (omega arith)

get_or-AreBytes : (xs : Bytes) (i : ℕ) → AreBytes xs → get_or xs i 0 < 256
get_or-AreBytes [] i h = omega arith
get_or-AreBytes (x ∷ xs) zero h = h.0
get_or-AreBytes (x ∷ xs) (suc i) h = get_or-AreBytes xs i (h.1)

-- A jump's operand is read back from its target.
target-distance : (sign : Sign) (place n : ℕ) → distance place (target sign place n) ≡ n
target-distance plus place n = ground arith
target-distance minus place n = ground arith

drop-step :
    (xs : List ℕ) (i j : ℕ) → i < length xs → j ≡ i + 1 → drop i xs ≡ get_or xs i 0 ∷ drop j xs
drop-step xs i j h e = let e' : j ≡ suc i = omega arith in rw e' (drop-get_or xs i h)

-- What is printed for an instruction, with the code that it is assembled to.
pub record Listed (code : List ℕ) (offset next : ℕ) (r : Option (Text × ℕ)) : Type 0 where
  pub text : Text
  pub run : r ≡ some (text, next)
  pub assembled : drop offset code ≡ assemble_text text ++ drop next code

module _ (chunk : Chunk) (op : OpCode) (offset : ℕ)
    (here : get_or chunk.code offset 0 ≡ byte_of op) where
  pub simple-Listed :
      offset + 1 ≤ length chunk.code
      → Listed chunk.code offset (offset + 1) (simple_instruction op offset)
  unfolding simple_instruction
  simple-Listed h = record {
    text = simple op;
    run = refl;
    assembled = rw (drop-step chunk.code offset (offset + 1) (omega arith) refl, here);
  }

  pub byte-Listed :
      offset + 2 ≤ length chunk.code
      → Listed chunk.code offset (offset + 2) (byte_instruction op chunk offset)
  unfolding byte_instruction
  byte-Listed h = record {
    text = with_byte op (get_or chunk.code (offset + 1) 0);
    run = rw (get_elem?-get_or chunk.code (offset + 1) (omega arith));
    assembled = rw (
      drop-step chunk.code offset (offset + 1) (omega arith) refl,
      drop-step chunk.code (offset + 1) (offset + 2) (omega arith) (omega arith),
      here,
    );
  }

  pub constant-Listed :
      {value : Value}
      → get_elem? chunk.constants.values (get_or chunk.code (offset + 1) 0) ≡ some value
      → offset + 2 ≤ length chunk.code
      → Listed chunk.code offset (offset + 2) (constant_instruction op chunk offset)
  unfolding constant_instruction
  constant-Listed {value} e h = record {
    text = with_constant op (get_or chunk.code (offset + 1) 0) value;
    run = rw (get_elem?-get_or chunk.code (offset + 1) (omega arith), ◌>>=◌, e);
    assembled = rw (
      drop-step chunk.code offset (offset + 1) (omega arith) refl,
      drop-step chunk.code (offset + 1) (offset + 2) (omega arith) (omega arith),
      here,
    );
  }

  pub invoke-Listed :
      {value : Value}
      → get_elem? chunk.constants.values (get_or chunk.code (offset + 1) 0) ≡ some value
      → offset + 3 ≤ length chunk.code
      → Listed chunk.code offset (offset + 3) (invoke_instruction op chunk offset)
  unfolding invoke_instruction
  invoke-Listed {value} e h = record {
    text =
        with_arguments op (get_or chunk.code (offset + 2) 0) (get_or chunk.code (offset + 1) 0)
          value;
    run = rw (
      get_elem?-get_or chunk.code (offset + 1) (omega arith),
      ◌>>=◌,
      get_elem?-get_or chunk.code (offset + 2) (omega arith),
      ◌>>=◌,
      e,
    );
    assembled = rw (
      drop-step chunk.code offset (offset + 1) (omega arith) refl,
      drop-step chunk.code (offset + 1) (offset + 2) (omega arith) (omega arith),
      drop-step chunk.code (offset + 2) (offset + 3) (omega arith) (omega arith),
      here,
    );
  }

  pub jump-Listed :
      (sign : Sign)
      → AreBytes chunk.code
      → offset + 3 ≤ length chunk.code
      → Listed chunk.code offset (offset + 3) (jump_instruction op sign chunk offset)
  unfolding jump_instruction
  jump-Listed sign small h =
      let high = get_or chunk.code (offset + 1) 0 in
      let low = get_or chunk.code (offset + 2) 0 in
      let low_fits = get_or-AreBytes chunk.code (offset + 2) small in
      let back = target-distance sign (offset + 3) (high * 256 + low) in
      let high_back : (high * 256 + low) / 256 ≡ high = omega arith in
      let low_back : (high * 256 + low) % 256 ≡ low = omega arith in
      record {
        text = with_jump op offset (target sign (offset + 3) (high * 256 + low));
        run = rw (
          get_elem?-get_or chunk.code (offset + 1) (omega arith),
          ◌>>=◌,
          get_elem?-get_or chunk.code (offset + 2) (omega arith),
        );
        assembled = rw (
          drop-step chunk.code offset (offset + 1) (omega arith) refl,
          drop-step chunk.code (offset + 1) (offset + 2) (omega arith) (omega arith),
          drop-step chunk.code (offset + 2) (offset + 3) (omega arith) (omega arith),
          here,
          back,
          high_back,
          low_back,
        );
      }

local_byte_lem : (n : ℕ) → n < 2 → local_byte (not (n == 0)) ≡ n
local_byte_lem zero h = refl
local_byte_lem (suc n) h = ground arith

record ListedUpvalues (code : List ℕ) (offset next : ℕ) (r : Option (List Captured × ℕ))
    : Type 0 where
  lines : List Captured
  run : r ≡ some (lines, next)
  assembled : drop offset code ≡ assemble_captured lines ++ drop next code

list_upvalues-Listed :
    (chunk : Chunk) (n offset : ℕ)
    → AreFlags chunk.code n offset
    → offset + 2 * n ≤ length chunk.code
    → ListedUpvalues chunk.code offset (offset + 2 * n) (list_upvalues n chunk offset)
unfolding list_upvalues
list_upvalues-Listed chunk zero offset flags h =
    let e : offset ≡ offset + 2 * 0 = omega arith in
    record {
      lines = [];
      run = ap (λ (n : ℕ). some ([], n)) e;
      assembled = ap (λ n. drop n chunk.code) e;
    }
list_upvalues-Listed chunk (suc n) offset flags h =
    let rest = list_upvalues-Listed chunk n (offset + 2) (flags.1) (omega arith) in
    let e : offset + 2 + 2 * n ≡ offset + 2 * suc n = omega arith in
    record {
      lines =
          record {
            place = offset;
            is_local = not (get_or chunk.code offset 0 == 0);
            index = get_or chunk.code (offset + 1) 0;
          }
          ∷ rest.lines;
      run = rw (
        get_elem?-get_or chunk.code offset (omega arith),
        ◌>>=◌,
        get_elem?-get_or chunk.code (offset + 1) (omega arith),
        ◌>>=◌,
        rest.run,
        e,
      );
      assembled = rw (
        drop-step chunk.code offset (offset + 1) (omega arith) refl,
        drop-step chunk.code (offset + 1) (offset + 2) (omega arith) (omega arith),
        rest.assembled,
        e,
        local_byte_lem (get_or chunk.code offset 0) (flags.0),
      );
    }

pub closure-Listed :
    (objects : List Obj) (chunk : Chunk) (op : OpCode) (offset : ℕ)
    → get_or chunk.code offset 0 ≡ byte_of op
    → {value : Value} {f : ObjFunction}
    → get_elem? chunk.constants.values (get_or chunk.code (offset + 1) 0) ≡ some value
    → function_in objects value ≡ some f
    → AreFlags chunk.code f.upvalue_count (offset + 2)
    → offset + 2 + 2 * f.upvalue_count ≤ length chunk.code
    → Listed chunk.code offset
        (offset + 2 + 2 * f.upvalue_count)
        (closure_instruction objects op chunk offset)
unfolding closure_instruction
closure-Listed objects chunk op offset here {value} {f} e found flags h =
    let rest = list_upvalues-Listed chunk (f.upvalue_count) (offset + 2) flags h in
    record {
      text = with_upvalues op (get_or chunk.code (offset + 1) 0) value (rest.lines);
      run = rw (
        get_elem?-get_or chunk.code (offset + 1) (omega arith),
        ◌>>=◌,
        e,
        ◌>>=◌,
        found,
        ◌>>=◌,
        rest.run,
      );
      assembled = rw (
        drop-step chunk.code offset (offset + 1) (omega arith) refl,
        drop-step chunk.code (offset + 1) (offset + 2) (omega arith) (omega arith),
        rest.assembled,
        here,
      );
    }
