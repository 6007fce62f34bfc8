-- ===== src/Lib.antt =====
-- The language core of YScript: its scanner, its compiler to bytecode, its interpreter and its
-- garbage collector, and the data they stand on; its disassembler; and a cache, an array and the
-- base64 codec of its base library.
--
-- A source text goes through `compile` (src/compiler/parser.cc), which asks the scanner
-- (src/compiler/scanner.cc) for one token at a time and writes bytecode into the chunk
-- (src/common/chunk.cc) of the function that it is in. Functions, strings and classes are
-- objects (src/common/ysobject.cc); the strings are interned in a hash table
-- (src/common/hashtable.cc), so that the tables of globals, fields and methods may compare keys
-- by address. The interpreter (src/vm/interp/interp.cc) runs the bytecode, and the collector
-- (src/common/memory.cc) frees the objects that neither of the two leads to.
--
-- The files, and the code that they model:
--
-- Prelude: shared names, Boolean tests on numbers, lists indexed by native numbers, C strings as
--   lists of bytes (`codes` of a literal).
-- Scanner, Scanner/Scan: src/compiler/scanner.h and src/compiler/scanner.cc. The record
--   `Scanner` is the global of that name, with its text; `advance`, `peek`, `skip_whitespace`,
--   `identifier_type`, `scan_token` and the others are the functions of those names.
--   Scanner/Moves, Scanner/Progress and Scanner/Keywords have the proofs, and Scanner/Types is
--   about the comparison of token types.
-- Value: the tagged `Value` of src/common/ysvalue.h, strings as the table reads them, `Entry`
--   and `Table` of src/common/hashtable.h, and `GROW_CAPACITY` of src/common/memory.h.
-- Table: src/common/hashtable.cc; `find_entry`, `table_get`, `table_set`, `table_delete`,
--   `table_find_string` and so on. Table/Probe is about a single probe, Table/View says which
--   map a table means, Table/Write, Table/Located, Table/Resize, Table/Map, Table/Lookup,
--   Table/Strings, Table/White and Table/AddAll are about the operations against that map.
-- Chunk: `Chunk` and `ValueArray` of src/common/chunk.cc and src/common/ysvalue.cc;
--   Chunk/Contents is about what has been written.
-- Memory: the objects of src/common/ysobject.h and src/common/ysobject.cc; Memory/Keys and
--   Memory/Interning are about the table of strings.
-- OpCode: src/common/opcode.h.
-- Interp: src/vm/interp/interp.h and src/vm/interp/interp.cc. The record `Vm` is the global of
--   that type without the fields of the collector. Interp/Upvalues has `captureUpvalue` and
--   `closeUpvalues`, Interp/Calls `call` to `defineMethod` and `concatenate`, Interp/Operands
--   the macros of `run`, Interp/Instructions and Interp/Run the cases of its switch, and
--   Interp/Interpret `initVM` and `interpret`. Interp/Chain is about the list of open upvalues
--   (Chain/Insert, Chain/Capture, Chain/Shared and Chain/Close), Interp/Jumps and
--   Interp/Constants about the jumps and the constants that the compiler has written, and
--   Interp/Keeps about what every command keeps: Keeps/Heap and Keeps/Knowing the objects,
--   Keeps/Sorted the list of the open upvalues, Keeps/Calls, Keeps/Operands, Keeps/Objects and
--   Keeps/Run one rule for each command, Keeps/Bounds the bounds of the arrays and the runtime
--   errors, and Keeps/Types that list along a run.
-- Collector: src/common/memory.cc, with `markTable` and `freeTable` of src/common/hashtable.cc,
--   `markCompilerRoots` of src/compiler/parser.cc and `freeVM`. The record `Collector` is the
--   rest of the global `vm`. Collector/Effect, Collector/Marks, Collector/Roots,
--   Collector/Trace, Collector/Sweep and Collector/Collect have the proofs; Collector/Parted is
--   about a collection from any state, and Collector/Lives about instructions with collections
--   between them.
-- Compiler: the state of src/compiler/parser.cc and the commands on it. Compiler/Emit has
--   `errorAt` to `endCompiler`, Compiler/Scope `beginScope` to `defineVariable`, Compiler/Rules
--   the table of the expression parser, Compiler/Grammar, Compiler/Expressions,
--   Compiler/Functions and Compiler/Statements the functions of the grammar, and
--   Compiler/Compile their recursion and `compile`. Compiler/Tokens, Compiler/Jumps,
--   Compiler/Constants, Compiler/Names, Compiler/Upvalues and Compiler/Recovery have the proofs.
-- Disassembler: src/disassembler/disassembler.cc, with what it prints as data.
--   Disassembler/Assemble reads a listing back, Disassembler/Listed and Disassembler/Whole are
--   about the listing of a chunk, and Disassembler/Executed about its jumps in the interpreter.
-- Printing: `printValue` of src/common/ysvalue.cc and `printObject` of src/common/ysobject.cc.
-- Base64: src/base/crypto/crypto.cpp, with what a read before `DecodeTable` gives as a
--   parameter; Base64/RoundTrip and Base64/Bounds have the proofs.
-- FlatArray: src/base/types/flat-array.h; FlatArray/Cells has the proofs.
-- LruCache: the cache of src/base/types/lru-cache.h. LruCache/Uses has sequences of its
--   operations and the list of pairs that they are compared with, LruCache/Nodes,
--   LruCache/Erased and LruCache/Evicted the list and the index, LruCache/Ordered,
--   LruCache/Fronted and LruCache/Full what the operations keep, LruCache/Answers and
--   LruCache/Stored the theorems.
-- Tests: runs on small inputs, and the theorems at concrete ones.
--
-- State is passed explicitly. The globals `parser`, `scanner`, `current` and `currentClass` with
-- the memory are the record `State`, and a function of the compiler is a command of type `M`. An
-- address is an index into the list of all objects. A command of the interpreter ends in an
-- `Outcome`: it returns, it has reported a runtime error, or it is stuck, where the code would
-- read or write what is not there. A call of `errorAt` adds the line that it prints to
-- `reports`.
--
-- Bounds. Loops over a text are given the bytes that are left as fuel, and each round takes a
-- byte. A probe is given as many rounds as the table has slots. The mutual recursion of the
-- grammar is on a fuel that `compile` takes, one unit for each level of nesting, and a loop at a
-- level makes at most as many rounds as there is fuel; `none` says that it ran out, and
-- `interpret` then ends in `uncompiled`. `run` executes as many instructions as `interpret` is
-- given rounds, and where it would go on `interpret` is `running`; it is `undefined` where the
-- machine has got stuck. The loops over the open upvalues are given one round more than there
-- are objects, and the tracing of references one more than there are objects and gray entries.
-- Bytes of code are numbers that the code masks to 8 bits where it does; the hash of a string is
-- kept modulo 2 ^ 32. Lengths, counts and capacities are the `int`s of the code, taken not to
-- overflow.
--
-- Not modelled: that an allocation runs the collector by itself (the interpreter keeps all
-- objects, `reallocate` is a definition on its own, and Collector/Lives has collections between
-- instructions only); the listing that `endCompiler` prints when `ENABLE_COMPILE_TRACE` is
-- defined, as src/common/config.h does; that the size in bytes of a FlatArray may overflow; the
-- layout of the printf formats of the disassembler; the variant of `Value` with NaN tagging; the
-- rest of src/base, and tools, which the language core does not use: src/base/codec and
-- src/base/stream are copies of code of other projects (WABT, and the datastream of the EOSIO
-- contract toolkit), the others are logging, locks and macros. `strtod` and `clock` of the C
-- library, the arithmetic of doubles, which are opaque numbers, and the sizes of structures are
-- parameters.
pub mod Prelude
pub mod Scanner
pub mod Table
pub mod Value
pub mod Chunk
pub mod Memory
pub mod Compiler
pub mod OpCode
pub mod Disassembler
pub mod Base64
pub mod FlatArray
pub mod Printing
pub mod Interp
pub mod Collector
pub mod LruCache
pub mod Tests
