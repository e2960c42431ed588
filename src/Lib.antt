-- ===== src/Lib.antt =====
-- SymCC compiles a program so that it computes symbolic expressions along with its values. The
-- compiler pass (compiler/) inserts calls of a runtime library (runtime/), which keeps the
-- expressions of the program's memory and builds new ones through a backend.
--
-- The parts that are modelled, and where:
-- - Shadow.antt, runtime/Shadow.h: the shadow pages with an expression or null for each byte of
--   memory (`g_shadow_pages` is `Pages`), `ReadShadowIterator` (`ReadIterator`, `read_begin`,
--   `read_next`, `read_prev`, `read_value`) and `WriteShadowIterator` (`WriteIterator`,
--   `write_begin`, `write_next`, `write_prev`), which enters a page when it moves to one without
--   shadow. Shadow/Pages.antt sees the pages as one map, Shadow/Reading.antt says what an iterator
--   reads while others write, and Shadow/Ranges.antt has the standard algorithms over iterators.
-- - Memory.antt, runtime/RuntimeCommon.cpp: `_sym_memcpy`, `_sym_memset`, `_sym_memmove`,
--   `_sym_read_memory`, `_sym_write_memory`, `_sym_make_symbolic`, and `isConcrete` of
--   runtime/Shadow.h. They take the pages and return the pages.
-- - Aggregate.antt, runtime/RuntimeCommon.cpp: `_sym_build_extract`, `_sym_build_bswap`,
--   `_sym_build_insert`, `_sym_build_zero_bytes`, on the bytes of Bytes.antt.
-- - Arithmetic.antt, runtime/RuntimeCommon.cpp: the saturating operations, the funnel shifts and
--   the absolute value. Overflow.antt: arithmetic with overflow, which uses the aggregates.
-- - SimpleBackend.antt, runtime/simple_backend/Runtime.cpp: `_sym_push_path_constraint` on the
--   solver's assertions and the log, with the calls of Z3 as a record `Solver` and its laws as
--   `Semantics`; `_sym_get_input_byte` on the vector of known bytes.
-- - GarbageCollection.antt, runtime/GarbageCollection.cpp and `_sym_collect_garbage` of the simple
--   backend: the expressions that are reachable, and the sweep of the table of expressions.
-- - Config.antt, runtime/Config.cpp: `loadConfig` as a function of the environment, whose
--   exceptions are error results; `std::stoul` is a parameter.
-- - LibcWrappers.antt, runtime/LibcWrappers.cpp: the wrappers that open, read and move through the
--   input, and in LibcWrappers/Buffers.antt those of functions on buffers, on a state of the shadow,
--   the input's descriptor and offset, the globals for calls and the constraints that were pushed.
--   The library's results are arguments.
-- - FunctionCalls.antt, runtime/RuntimeCommon.cpp: the globals for parameters and return values.
-- - Builder.antt, runtime/RuntimeCommon.h: the operations that a backend implements, as a record
--   `Builder`, which the parts above take as a parameter. `Meaning` states SMT-LIB's laws of bit
--   vectors for them, under one assignment of the input. Both backends hand the operations on to
--   Z3 or QSYM, which are not part of the repository. Builder/Word.antt is a backend of constants
--   that meets the laws.
-- - Compiler.antt, compiler/: the pass over a function. Compiler/Ir.antt has what it reads of LLVM's
--   instructions and the code that it inserts, which is a list in the order in which it is made;
--   Compiler/Runtime.antt the tables of handlers (compiler/Runtime.cpp). Compiler/Symbolizer.antt is
--   the state of `Symbolizer` with the steps that the visitors share (compiler/Symbolizer.h),
--   Compiler/Values.antt `createValueExpression` and `aggregateMemberOffset`. The visitors of
--   compiler/Symbolizer.cpp stand in Compiler/Visit, Casts, Members and Calls, `finalizePHINodes` in
--   PhiNodes, `shortCircuitExpressionUses` in ShortCircuit, and `instrumentFunction` of
--   compiler/Pass.cpp in Pass. Compiler/Ready.antt and its children prove the invariant of the state,
--   Compiler/Total.antt that supported instructions meet no assertion, Compiler/Equivalence.antt what
--   short-circuiting computes, Compiler/Sizes.antt and Compiler/Offsets.antt how wide the expressions
--   of values are and where members stand.
-- - Base.antt: names and lemmas that all share. Tests.antt: runs on concrete inputs.
--
-- Conventions:
-- - Addresses, sizes and `uint64_t` are natural numbers with the wrap-around at 2 ^ 64 written
--   out; a width that is handed over as `uint8_t` is taken modulo 256.
-- - `ReadShadowIterator::operator*` asserts that a shadow expression represents a byte.
--   Shadow/Asserted.antt and Memory/Asserted.antt have the reads and the memory operations with that
--   assertion, as functions whose names start with `checked_`; the plain ones of Shadow.antt and
--   Memory.antt are what they do while it holds. The wrappers in LibcWrappers use the checked ones.
-- - A descriptor is an `Option`, where `none` is -1. The functions that generate the shadow of input
--   bytes count in a signed `int`: from 2 ^ 31 bytes on the result is `none`.
-- - An expression that can be null is an `Option`. Where an assertion can fail or C++ leaves the
--   behaviour undefined, the result is an `Option` whose `none` stands for that.
-- - Arguments of a call are evaluated from the left. The order matters only for the page that
--   an iterator to the end of a range enters.
-- - A loop over a view runs for as many rounds as the view has bytes; `Shadow.Ranges.Ends` has
--   the reason. `std::copy_backward` steps back before it reads and writes.
-- - `_sym_make_symbolic` takes the backend's `_sym_get_input_byte` as a function parameter.
--
-- - In the compiler pass, `none` stands for a failed assertion or unreachable code. An instruction
--   of the program is known by a number, and so is an inserted one. Types are integers, float,
--   double, pointers, structures and arrays.
--
-- Not modelled: LLVM itself, the import of the run-time library's functions, the lowering of
-- intrinsics, the splitting of basic blocks around a computation, the 32-bit `lseek` wrapper, the
-- QSYM backend, and of the simple backend the builders, each of which is a call of Z3.
-- Floating-point operations of the runtime and debug output are left out.
pub mod Base
pub mod Builder
pub mod Bytes
pub mod Aggregate
pub mod Shadow
pub mod Memory
pub mod Arithmetic
pub mod Overflow
pub mod GarbageCollection
pub mod Compiler
pub mod Config
pub mod FunctionCalls
pub mod LibcWrappers
pub mod SimpleBackend
pub mod Tests
