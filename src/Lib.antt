-- ===== src/Lib.antt =====
-- EZ is an interpreter for a small scripting language. This library models its parts that turn
-- text into tokens and these into expressions, resolve variables and emit bytecode, store compiled
-- programs in .ezc files, compute with integers, reclaim cyclic objects, and handle UTF-8.
--
-- How the parts interact. The lexer (src/lexer) makes tokens of a source text; the parser
-- (src/parser) makes a syntax tree of them, and the compiler (src/compiler) a compiled
-- function, calling the emission operations of a chunk (src/bytecode/Bytecode.cpp). The
-- serializer (src/bytecode/serializer) writes such a function to a file and reads it back; the
-- virtual machine (src/vm) runs it, and the collector (src/gc) stops the machine's threads and
-- clears what only cycles keep. String operations of the language go through src/runtime/Utf8.h.
--
-- Which file models which part:
--   Prelude, Bytes       shared names; lists on native numbers; little-endian words.
--   Bytecode             src/bytecode/Bytecode.h and Bytecode.cpp. Types has `Constant`, `Chunk`,
--                        `BytecodeFunction` (its own fields as `FunctionInfo`, its nested functions
--                        as `Functions`); Pool has `addConstant`, `getConstant`, `resolveConstants`;
--                        OpCodes has the numbering of instructions and their lengths in the
--                        disassembler and in src/vm/BytecodeVMExecute.cpp; Emit has `writeByte` to
--                        `writeLoop`, and `READ_INT`; CallSites has `calleeNameAt`.
--   Serializer           src/bytecode/serializer/BytecodeSerializer.cpp. Write has what is written,
--                        Reader the primitives `readPod`, `readCount`, `readExact` on a stream, Read
--                        what is read. Writable states the limits of the format and what a program
--                        is after reading; Reads, Stable and Gives are rules for proofs on readers.
--   Utf8                 src/runtime/Utf8.h; Bits and Coding are about `encode` and `decode`.
--   Lexer                src/lexer. Kinds and Keywords are tables; State has `class Lexer` and its
--                        elementary steps; Comments, Numbers, Strings, Templates, Newline and Scan
--                        have the scanners, `scanToken` and `tokenize`. Progress and its children
--                        are about what each scanner takes; RawStrings, QuotedStrings and
--                        TemplateErrors about what it makes.
--   Parser               src/parser/ParserExpr.cpp, and what it uses of Parser.cpp and
--                        ParserStmt.cpp. Syntax has the nodes of src/ast/AST_Expr.h; Tokens has how
--                        tokens are read, KindTests the tests on their kinds; Primary has `primary`,
--                        `lambdaExpression` and `parseType`, Expressions the functions from `call` to
--                        `expression`. Source says how expressions are written, and Quiet,
--                        Climb and ReadBack are about reading them back; Recovery has `synchronize`
--                        and `suggestStatementKeyword`.
--   Utils                src/utils/StringHelpers.h: Distance has `nameDistance`, Levenshtein what it
--                        computes.
--   Gc                   src/gc/CycleCollector.cpp and CycleCollector.h. Heap has what an object visits
--                        and what clearing leaves, Flood the worklist of phase 3, Phases the four
--                        phases and `collect_internal`, Generations the two generations, Safepoint
--                        the handshake with other threads as a step relation.
--   Arith                src/utils/WrapArith.h; Operators has the integer cases of the binary
--                        operators in src/vm/BytecodeVMExecute.cpp, of constant folding and of
--                        `compileBinary` in src/compiler; Power and Folding are about them.
--   Compiler             src/compiler. State has `struct Compiler` and how an error ends a compilation,
--                        Scopes the scopes and locals, Upvalues the captured variables, Globals the
--                        slots of globals, Code what is emitted for locals and constants.
--   Vm                   src/vm/BytecodeVMExecute.cpp: Arity is the argument count test of
--                        `dispatchCall`, Bundled is about it before and after a program is written
--                        and read, Loads has how loads of locals and constants are read, and
--                        Upvalues has `captureUpvalue` and `closeUpvalues`.
--
-- Correspondence. A `std::string` and a `std::vector<uint8_t>` are lists of bytes; a byte is a
-- number. A `size_t` and a `long long` are numbers, and wrapping at 2 ^ 64 is written out where it
-- can occur; a `double` is its 64-bit pattern. A function that changes an object takes and returns
-- it. A runtime_error of the serializer and a ParseError are values of `Result`; an exception in
-- the lexer, and a read outside the code, is `none`. Names are those of the source in lower
-- case with underscores.
--
-- Fuel. The readers recurse on the nesting depth that is left, 512 at first, which is the bound of
-- the source. The loops of the lexer and of Utf8 have the length of the rest of the text for fuel,
-- and each round takes a byte at least. Templates inside templates are followed to the depth of the
-- length of the source; the text of an expression is shorter than its template, and Progress/Depth
-- is about this bound.
-- In the parser, the functions call each other at most as often as there are tokens, since each
-- call is behind a token that was taken; a list has a round for each token. For the expressions
-- that Parser.Source writes, ReadBack is about this bound as well.
-- The worklist of the collector has the number of candidates for fuel, since each candidate
-- enters it at most once; the search for a callee the size of its table, since each round
-- shortens what is left; and the loop of doPower 63 rounds, since a non-negative exponent is
-- below 2 ^ 63.
--
-- Not modelled: the statements of the parser, whose `declaration` is a parameter of the functions for
-- expressions, and what a `DepthGuard` that throws leaves behind; the translation of expressions
-- and statements in the compiler, the type checker, most of the dispatch loop of the virtual machine, the built-in functions, the
-- event loop, the window system, the command line with its package manager, and the test runner:
-- partly since they are input and output, partly since they are further work. `stod` is a
-- parameter of the lexer: the pattern that it gives, or `none` where it throws; the division of
-- doubles and `pow` are parameters of the operators; the counts of `shared_ptr`, and which
-- objects have expired, are parameters of the collector. What the lexer prints from the source
-- text beside a message, and the file name in each token, are left out. In the collector, the
-- back-off counter and two threads that collect at once are left out.
pub mod Prelude
pub mod Bytes
pub mod Bytecode
pub mod Serializer
pub mod Vm
pub mod Utf8
pub mod Lexer
pub mod Gc
pub mod Compiler
pub mod Arith
pub mod Parser
pub mod Utils
