-- ===== src/Compiler/Constants.antt =====
-- `emitConstant` of src/compiler/parser.cc: what it appends to the code and to the constants.
use yscript.Prelude.{
  ℕ, zero, suc, ◌+◌, ◌≤◌, ◌<◌, ◌≡◌, ap, ◌∙◌, List, [], ◌∷◌, false, some, arith, ltb, length,
  get_elem?, get_or, take,
}
use yscript.Value.{Value}
use yscript.Chunk.{ValueArray, add_constant, write_value_array}
use yscript.Chunk.Contents.{IsValid, add_constant-append}
use yscript.Memory.{ObjFunction}
use yscript.OpCode.{byte_of, op_constant}
use yscript.Compiler.{State, ◌>>=◌}
use yscript.Compiler.Emit.{uint8_max, make_constant, emit_byte, emit_bytes, emit_constant}
use yscript.Compiler.Jumps.{
  Writes, emit_raw-Appended, both-Appended, Appended-byte, current_function-Writes,
  set_function-Writes, with_function, with_function-Writes,
}

get_elem?-take :
    (n i : ℕ) (xs : List Value) {v : Value}
    → get_elem? (take n xs) i ≡ some v
    → get_elem? xs i ≡ some v
get_elem?-take zero i xs h = absurd (cc h)
get_elem?-take (suc n) i [] h = absurd (cc h)
get_elem?-take (suc n) zero (x ∷ xs) h = h
get_elem?-take (suc n) (suc i) (x ∷ xs) h = get_elem?-take n i xs h

get_or-some :
    (xs : List ℕ) (i : ℕ) {b : ℕ} → i < length xs → get_or xs i 0 ≡ b → get_elem? xs i ≡ some b
get_or-some [] i h e = absurd (omega arith)
get_or-some (x ∷ xs) zero h e = ap some e
get_or-some (x ∷ xs) (suc i) h e = get_or-some xs i (omega arith) e

-- The instruction and its operand stand at `at`, and the operand leads to the value.
pub record HasConstant (g : ObjFunction) (at : ℕ) (value : Value) : Type 0 where
  pub index : ℕ
  pub op : get_elem? g.chunk.code at ≡ some (byte_of op_constant)
  pub operand : get_elem? g.chunk.code (at + 1) ≡ some index
  pub constant : get_elem? g.chunk.constants.values index ≡ some value

-- `emitConstant` with at most 255 constants before ends with no error; behind the old code stand the
-- instruction and the index of the value.
pub emit_constant-HasConstant :
    (s : State) (f : ObjFunction) (value : Value)
    → Writes s f
    → IsValid f.chunk
    → f.chunk.constants.count ≤ 255
    → (s' : State) × (g : ObjFunction) × (emit_constant value s ≡ some (tt, s'))
      × Writes s' g
      × IsValid g.chunk
      × (s'.had_error ≡ s.had_error)
      × HasConstant g f.chunk.count value
unfolding emit_constant make_constant emit_bytes emit_byte add_constant write_value_array
emit_constant-HasConstant s f value w v few =
    let chunk = (add_constant f.chunk value).1 in
    let index = (add_constant f.chunk value).0 in
    let f₁ : ObjFunction = record f { chunk = chunk } in
    let (v₁, _, found, _) = add_constant-append f.chunk value v in
    let s₁ = with_function s f w f₁ in
    let w₁ = with_function-Writes s f w f₁ in
    let small : ltb uint8_max index ≡ false = ground arith in
    let (s₂, g₂, run₂, a₂) = emit_raw-Appended s₁ f₁ (byte_of op_constant) w₁ v₁ in
    let (s₃, g₃, run₃, a₃) = emit_raw-Appended s₂ g₂ index a₂.writes a₂.valid in
    let a = both-Appended a₂ a₃ in
    let first = Appended-byte v₁ a 0 (omega arith) in
    let here : f.chunk.count + 0 ≡ f.chunk.count = omega arith in
    let second = Appended-byte v₁ a 1 (omega arith) in
    (
      s₃,
      g₃,
      rw (
        ◌>>=◌,
        current_function-Writes s f w,
        ◌>>=◌,
        set_function-Writes s f w f₁,
        ◌>>=◌,
        small,
        ◌>>=◌,
        run₂,
        ◌>>=◌,
        run₃,
      ),
      a.writes,
      a.valid,
      a.errors,
      record {
        index = index;
        op = rw here at (
            get_or-some g₃.chunk.code (f.chunk.count + 0)
              (omega (arith, a.counted, a.valid.code, a.valid.fits)) first);
        operand =
            get_or-some g₃.chunk.code (f.chunk.count + 1)
              (omega (arith, a.counted, a.valid.code, a.valid.fits)) second;
        constant =
            ap (λ (c : ValueArray). get_elem? c.values index) a.constants
            ∙ get_elem?-take chunk.constants.count index chunk.constants.values found;
      },
    )
