-- ===== src/Tests/Code.antt =====
-- The scanner and the compiler run on small texts, and their theorems at concrete states.
use yscript.Prelude.{
  ℕ, zero, suc, ◌+◌, ◌≡◌, ◌≢◌, refl, List, [], ◌∷◌, ◌++◌, true, false, Option, none, some, arith,
  get_elem?, get_or, length, take,
}
use yscript.Prelude.Bytes.{Bytes, codes}
use yscript.Value.{nil}
use yscript.Chunk.{Chunk, write_chunk, add_constant}
use yscript.Chunk.Contents.{
  IsValid, bytes_of, lines_of, constants_of, write_chunk-append, add_constant-append,
}
use yscript.Memory.{Obj, function, ObjFunction}
use yscript.OpCode.{byte_of, op_loop}
use yscript.Interp.{read_short}
use yscript.Scanner.{Scanner, Token, TokenType, init_scanner}
use yscript.Scanner.Scan.{scan_token, identifier_type}
use yscript.Scanner.Moves.{IsScanned, lines_before}
use yscript.Scanner.Progress.{Scans, scan_token-Scans}
use yscript.Scanner.Keywords.{keyword_in, keywords, lexeme, identifier_type-keyword_in}
use yscript.Compiler.{State, Local, Upvalue, Compiler, type_function}
use yscript.Compiler.Tokens.{Advanced, advance-Advanced}
use yscript.Compiler.Emit.{advance, patch_jump, emit_loop}
use yscript.Compiler.Scope.{resolve_local, add_upvalue}
use yscript.Compiler.Compile.{compile, start_state}
use yscript.Compiler.Jumps.{Writes, patch_jump-lands, emit_loop-lands}
use yscript.Compiler.Names.{IsWhole, Resolved, resolve_local-Resolved}
use yscript.Compiler.Upvalues.{up, Added, HasUpvalues, add_upvalue-Added}

abbrev pub no_numbers : Bytes → ℕ
no_numbers text = 7

abbrev code_in : List Obj → ℕ → List ℕ
code_in objects p = elim (get_elem? objects p) [
  | some (function f) ↦ take f.chunk.count f.chunk.code
  | _ ↦ []
]

abbrev code_of : Option (Option ℕ × State) → List ℕ
code_of (some (some p, s)) = code_in s.memory.objects p
code_of _ = []

-- The code of a text with a conditional, a loop, locals and a call.
compiled_branches :
    code_of (
      compile no_numbers 20
        (codes "if (a < 1) { var b = 2; print b + c; } else while (true) f(x);")
        (start_state no_numbers))
    ≡ 7 ∷ 0 ∷ 0 ∷ 1 ∷ 17 ∷ 26 ∷ 0 ∷ 13 ∷ 4 ∷ 0 ∷ 2 ∷ 5 ∷ 1 ∷ 7 ∷ 3 ∷ 18 ∷ 24 ∷ 4 ∷ 25 ∷ 0 ∷ 17 ∷ 4
      ∷ 2 ∷ 26 ∷ 0 ∷ 11 ∷ 4 ∷ 7 ∷ 4 ∷ 7 ∷ 5 ∷ 28 ∷ 1 ∷ 4 ∷ 27 ∷ 0 ∷ 15 ∷ 4 ∷ 1 ∷ 33 ∷ []
unfolding compile start_state
compiled_branches = refl

-- The code of a text with a closure and a class that inherits.
compiled_classes :
    code_of (
      compile no_numbers 20
        (codes
          "fun f(a) { fun g() { return a; } return g; } class B : A { init() { this.x = 1; } } ")
        (start_state no_numbers))
    ≡ 31 ∷ 1 ∷ 8 ∷ 0 ∷ 34 ∷ 2 ∷ 8 ∷ 2 ∷ 7 ∷ 3 ∷ 7 ∷ 4 ∷ 35 ∷ 7 ∷ 5 ∷ 31 ∷ 7 ∷ 36 ∷ 6 ∷ 4 ∷ 4 ∷ 1
      ∷ 33 ∷ []
unfolding compile start_state
compiled_classes = refl

abbrev script : Bytes
script = codes "// loop\n while (x) y;"

script-IsScanned : IsScanned (init_scanner script)
unfolding init_scanner lines_before
script-IsScanned = record { within = omega arith; counted = refl }

scan_token-Scans_example : Scans (init_scanner script) (scan_token (init_scanner script))
scan_token-Scans_example = scan_token-Scans (init_scanner script) script-IsScanned

abbrev at_word : Scanner
at_word = record { source = codes "while (x)"; start = 0; current = 5; line = 1 }

identifier_type-keyword_in_example : identifier_type at_word ≡ keyword_in keywords (lexeme at_word)
identifier_type-keyword_in_example = identifier_type-keyword_in at_word (omega arith) (omega arith)

abbrev pub small_chunk : Chunk
small_chunk = record {
  count = 7;
  capacity = 8;
  code = 26 ∷ 255 ∷ 255 ∷ 4 ∷ 1 ∷ 18 ∷ 4 ∷ 0 ∷ [];
  lines = 1 ∷ 1 ∷ 1 ∷ 1 ∷ 2 ∷ 2 ∷ 2 ∷ 0 ∷ [];
  constants = record { capacity = 0; count = 0; values = [] };
}

pub small_chunk-IsValid : IsValid small_chunk
small_chunk-IsValid = record {
  code = refl;
  lines = refl;
  fits = omega arith;
  constants = record { size = refl; fits = omega arith };
}

write_chunk-append_example :
    IsValid (write_chunk small_chunk 33 3)
    × (bytes_of (write_chunk small_chunk 33 3) ≡ bytes_of small_chunk ++ 33 ∷ [])
    × (lines_of (write_chunk small_chunk 33 3) ≡ lines_of small_chunk ++ 3 ∷ [])
    × (constants_of (write_chunk small_chunk 33 3) ≡ constants_of small_chunk)
write_chunk-append_example = write_chunk-append small_chunk 33 3 small_chunk-IsValid

add_constant-append_example :
    IsValid (add_constant small_chunk nil).1
    × (constants_of (add_constant small_chunk nil).1 ≡ constants_of small_chunk ++ nil ∷ [])
    × (get_elem? (constants_of (add_constant small_chunk nil).1) (add_constant small_chunk nil).0
        ≡ some nil)
    × (bytes_of (add_constant small_chunk nil).1 ≡ bytes_of small_chunk)
add_constant-append_example = add_constant-append small_chunk nil small_chunk-IsValid

abbrev pub some_function : ObjFunction
some_function = record { arity = 0; upvalue_count = 1; chunk = small_chunk; name = none }

abbrev pub word : Bytes → Token
word text = record { type = TokenType.identifier; start = text; length = length text; line = 1 }

abbrev pub some_locals : List Local
some_locals =
    record { name = word (codes "x"); depth = none; is_captured = false }
    ∷ record { name = word (codes "y"); depth = some 1; is_captured = false }
    ∷ record { name = word (codes ""); depth = some 0; is_captured = false }
    ∷ []

abbrev pub some_compiler : Compiler
some_compiler = record {
  function = 0;
  type = type_function;
  locals = some_locals;
  upvalues = up 3 true ∷ [];
  scope_depth = 1;
}

abbrev pub some_state : State
some_state = record {
  memory = record {
    objects = function some_function ∷ [];
    strings = record { count = 0; capacity = 0; entries = [] };
  };
  scanner = record { source = []; start = 0; current = 0; line = 1 };
  current = word (codes ";");
  previous = word (codes "x");
  had_error = false;
  panic_mode = false;
  compilers = some_compiler ∷ [];
  classes = [];
  reports = [];
}

pub some_state-Writes : Writes some_state some_function
some_state-Writes = record { compiler = some_compiler; enclosing = []; head = refl; object = refl }

patch_jump-lands_example :
    (s' : State) × (g : ObjFunction) × (patch_jump 1 some_state ≡ some (tt, s'))
    × Writes s' g
    × IsValid g.chunk
    × (s'.had_error ≡ false)
    × (g.chunk.count ≡ 7)
    × (1 + 2 + read_short g.chunk.code 1 ≡ 7)
    × ((j : ℕ) → 1 ≢ j → 1 + 1 ≢ j → get_or g.chunk.code j 0 ≡ get_or small_chunk.code j 0)
patch_jump-lands_example =
    patch_jump-lands some_state some_function 1 some_state-Writes small_chunk-IsValid (omega arith)
      (omega arith)

emit_loop-lands_example :
    (s' : State) × (g : ObjFunction) × (emit_loop 3 some_state ≡ some (tt, s'))
    × Writes s' g
    × IsValid g.chunk
    × (s'.had_error ≡ false)
    × (high low : ℕ) × (bytes_of g.chunk
        ≡ bytes_of small_chunk ++ byte_of op_loop ∷ high ∷ low ∷ [])
    × (g.chunk.count ≡ 3 + read_short g.chunk.code (7 + 1))
emit_loop-lands_example =
    emit_loop-lands some_state some_function 3 some_state-Writes small_chunk-IsValid (omega arith)
      (omega arith)

some_locals-IsWhole : (j : ℕ) (l : Local) → get_elem? some_locals j ≡ some l → IsWhole l.name
some_locals-IsWhole zero l h = ground arith
some_locals-IsWhole (suc zero) l h = ground arith
some_locals-IsWhole (suc (suc zero)) l h = ground arith
some_locals-IsWhole (suc (suc (suc j))) l h = absurd (cc h)

resolve_local-Resolved_example :
    (r : Option ℕ) × (s' : State) × (resolve_local some_locals (word (codes "y")) some_state
      ≡ some (r, s'))
    × Resolved some_locals (word (codes "y")) some_state r s'
resolve_local-Resolved_example =
    resolve_local-Resolved some_locals (word (codes "y")) some_state (omega arith)
      some_locals-IsWhole

only : (i : ℕ) (u : Upvalue) → get_elem? some_compiler.upvalues i ≡ some u → i ≡ 0
only zero u h = refl
only (suc i) u h = absurd (cc h)

some_compiler-HasUpvalues : HasUpvalues some_state some_compiler
some_compiler-HasUpvalues = record {
  f = some_function;
  object = refl;
  counted = refl;
  few = omega arith;
  distinct = λ i j u h k. omega (arith, only i u h, only j u k);
}

add_upvalue-Added_example :
    (k : ℕ) × (c' : Compiler) × (s' : State) × (add_upvalue some_compiler 3 false some_state
      ≡ some ((k, c'), s'))
    × HasUpvalues s' c'
    × ((j : ℕ) (w : Upvalue)
        → get_elem? some_compiler.upvalues j ≡ some w
        → get_elem? c'.upvalues j ≡ some w)
    × Added some_state some_compiler (up 3 false) k c' s'
add_upvalue-Added_example =
    add_upvalue-Added some_state some_compiler 3 false some_compiler-HasUpvalues

abbrev text_state : State
text_state = record some_state { scanner = init_scanner (codes "@ x") }

text_state-IsScanned : IsScanned text_state.scanner
unfolding init_scanner lines_before
text_state-IsScanned = record { within = omega arith; counted = refl }

advance-Advanced_example :
    (s' : State) × (advance text_state ≡ some (tt, s'))
    × Advanced text_state s'
    × (s'.previous ≡ text_state.current)
advance-Advanced_example = advance-Advanced text_state text_state-IsScanned
