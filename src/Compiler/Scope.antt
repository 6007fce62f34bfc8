-- ===== src/Compiler/Scope.antt =====
-- Scopes, locals and upvalues (`beginScope` to `defineVariable` of src/compiler/parser.cc).
use yscript.Prelude.{
  ℕ, suc, ◌+◌, ◌-◌, ◌%◌, List, [], ◌∷◌, ◌++◌, Bool, true, false, ◌&&◌, Option, none, some, ◌==◌,
  ltb, if◌then◌else◌, get_elem?, set, length,
}
use yscript.Prelude.Bytes.{Bytes, codes, bytes_eq}
use yscript.Value.{Ptr, obj, bool_eq}
use yscript.Memory.{function, copy_string}
use yscript.OpCode.{op_close_upvalue, op_pop, op_define_global}
use yscript.Scanner.{Token, TokenType}
use yscript.Compiler.{
  Local, Upvalue, Compiler, M, ◌>>=◌, ◌>>◌, pure, fail, get, modify, when, current_compiler,
  modify_compiler, as_function, in_memory,
}
use yscript.Compiler.Emit.{text_of, error, consume, emit_byte, emit_bytes, make_constant}

unfoldable pub begin_scope : M (Unit {0})
unfolding modify_compiler
begin_scope = modify_compiler (λ c. record c { scope_depth = c.scope_depth + 1 })

-- `local->depth > depth`
abbrev pub is_deeper : Local → ℕ → Bool
is_deeper l depth = elim l.depth [ none ↦ false | some d ↦ ltb depth d ]

-- The loop of `endScope` over the locals, the last one first.
unfoldable pub end_scope_loop : List Local → ℕ → M (Unit {0})
unfolding emit_byte modify_compiler
end_scope_loop [] depth = pure tt
end_scope_loop (l ∷ rest) depth =
    let next = (do
      emit_byte (if l.is_captured then op_close_upvalue else op_pop)
      modify_compiler (λ c. record c { locals = rest })
      end_scope_loop rest depth) in
    if is_deeper l depth then next else pure tt

unfoldable pub end_scope : M (Unit {0})
unfolding end_scope_loop modify_compiler current_compiler
end_scope = do
  modify_compiler (λ c. record c { scope_depth = c.scope_depth - 1 })
  c ← current_compiler
  end_scope_loop c.locals c.scope_depth

unfoldable pub identifier_constant : Token → M ℕ
unfolding make_constant copy_string
identifier_constant name = do p ← in_memory (copy_string (text_of name)); make_constant (obj p)

unfoldable pub identifiers_equal : Token → Token → Bool
identifiers_equal a b = (a.length == b.length) && bytes_eq (text_of a) (text_of b)

-- The index of the last local with the name; a local that is still being initialized is reported.
unfoldable pub resolve_local : List Local → Token → M (Option ℕ)
unfolding identifiers_equal error
resolve_local [] name = pure none
resolve_local (l ∷ rest) name =
    let further = resolve_local rest name in
    if identifiers_equal name l.name
    then (do
      elim l.depth [
        | none ↦ error (codes "Can't read local variable in its own initializer.")
        | some _ ↦ pure tt
      ]
      pure (some (length rest)))
    else further

abbrev pub uint8_count : ℕ
uint8_count = 256

-- The first upvalue with this index and kind, `i` being the index of the head.
unfoldable pub find_upvalue : List Upvalue → ℕ → ℕ → Bool → Option ℕ
find_upvalue [] i index is_local = none
find_upvalue (u ∷ us) i index is_local =
    let further = find_upvalue us (suc i) index is_local in
    if (u.index == index) && bool_eq u.is_local is_local then some i else further

-- `function->upvalueCount++` of the function at `p`
unfoldable pub count_upvalue : Ptr → M (Unit {0})
count_upvalue p = do
  s ← get
  elim (as_function (get_elem? s.memory.objects p)) [
    | none ↦ fail
    | some f ↦ modify λ s. record s {
      memory = record (s.memory) {
        objects =
            set s.memory.objects p (function (record f { upvalue_count = f.upvalue_count + 1 }));
      };
    }
  ]

-- The index of the upvalue, and the compiler with it.
unfoldable pub add_upvalue : Compiler → ℕ → Bool → M (ℕ × Compiler)
unfolding find_upvalue count_upvalue error
add_upvalue c index is_local = elim (find_upvalue c.upvalues 0 index is_local) [
  | some i ↦ pure (i, c)
  | none ↦
      if length c.upvalues == uint8_count
      then (do error (codes "Too many closure variables in function."); pure (0, c))
      else (do
        count_upvalue c.function
        pure (
          length c.upvalues,
          record c { upvalues = c.upvalues ++ record { index = index; is_local = is_local } ∷ [] },
        ))
]

-- `locals[i].isCaptured = true`
unfoldable pub capture_local : List Local → ℕ → List Local
capture_local [] i = []
capture_local (l ∷ rest) i =
    if length rest == i then record l { is_captured = true } ∷ rest else l ∷ capture_local rest i

-- In the compiler at the head, whose enclosing ones follow; the answer has the compilers with what
-- has been captured and added.
unfoldable pub resolve_upvalue : List Compiler → Token → M (Option ℕ × List Compiler)
unfolding resolve_local add_upvalue capture_local
resolve_upvalue [] name = fail
resolve_upvalue (c ∷ []) name = pure (none, c ∷ [])
resolve_upvalue (c ∷ e ∷ es) name =
    let outer = resolve_upvalue (e ∷ es) name in
    do
      found ← resolve_local e.locals name
      elim found [
        | some i ↦ do
          (k, c') ← add_upvalue c (i % 256) true
          pure (some k, c' ∷ record e { locals = capture_local e.locals i } ∷ es)
        | none ↦ do
          (up, rest) ← outer
          elim up [
            | none ↦ pure (none, c ∷ rest)
            | some j ↦ do (k, c') ← add_upvalue c (j % 256) false; pure (some k, c' ∷ rest)
          ]
      ]

unfoldable pub add_local : Token → M (Unit {0})
unfolding current_compiler modify_compiler error
add_local name = do
  c ← current_compiler
  if length c.locals == uint8_count
      then error (codes "Too many local variables in function.")
      else modify_compiler λ c. record c {
        locals = record { name = name; depth = none; is_captured = false } ∷ c.locals;
      }

-- `local->depth != -1 && local->depth < depth`
abbrev pub is_outer : Local → ℕ → Bool
is_outer l depth = elim l.depth [ none ↦ false | some d ↦ ltb d depth ]

-- The loop of `declareVariable`, which reports a local of the same name in the same scope.
unfoldable pub declare_loop : List Local → Token → ℕ → M (Unit {0})
unfolding identifiers_equal error
declare_loop [] name depth = pure tt
declare_loop (l ∷ rest) name depth =
    let next = (do
      when (identifiers_equal name l.name)
          (error (codes "Already a variable with this name in this scope."))
      declare_loop rest name depth) in
    if is_outer l depth then pure tt else next

unfoldable pub declare_variable : M (Unit {0})
unfolding current_compiler declare_loop add_local
declare_variable = do
  c ← current_compiler
  s ← get
  if c.scope_depth == 0
      then pure tt
      else (do declare_loop c.locals s.previous c.scope_depth; add_local s.previous)

unfoldable pub parse_variable : Bytes → M ℕ
unfolding consume declare_variable current_compiler identifier_constant
parse_variable message = do
  consume TokenType.identifier message
  declare_variable
  c ← current_compiler
  s ← get
  if ltb 0 c.scope_depth then pure 0 else identifier_constant s.previous

abbrev pub initialize_head : ℕ → List Local → List Local
initialize_head depth [] = []
initialize_head depth (l ∷ rest) = record l { depth = some depth } ∷ rest

unfoldable pub mark_initialized : M (Unit {0})
unfolding modify_compiler
mark_initialized = modify_compiler λ c. record c {
  locals = if c.scope_depth == 0 then c.locals else initialize_head c.scope_depth c.locals;
}

unfoldable pub define_variable : ℕ → M (Unit {0})
unfolding current_compiler mark_initialized emit_bytes
define_variable global = do
  c ← current_compiler
  if ltb 0 c.scope_depth then mark_initialized else emit_bytes op_define_global global
