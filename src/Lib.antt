-- ===== src/Lib.antt =====
-- A model of AKX, a Lisp-like language whose interpreter is written in C, and the theorems that
-- make its core correct.
--
-- The program. pkg/cell reads source text into cells: symbols, numbers, strings, lists, quoted text
-- and, at run time, lambdas and continuations. pkg/rt evaluates cells over a chain of scopes; what
-- a list calls is a builtin, one of the nuclei of nucleus/, or a lambda. The nuclei call the
-- evaluator again on their arguments, and call the C library and the operating system. pkg/repl
-- gathers lines until their brackets are balanced.
--
-- The files.
--   Base            the names that the modules share, Boolean tests, lists measured by native
--                   numbers, C strings as byte lists, and C's int (Base/Int).
--   Cell            pkg/cell/akx_cell.h and the accessors of pkg/rt/akx_rt.c: `Cell` is the tagged
--                   union and `CellPtr` an `akx_cell_t *`, null or a cell with its next pointer.
--                   Cell/Chain has the list helpers, Cell/Clone `akx_cell_clone` and Cell/Free the
--                   lambdas that `akx_cell_free` releases.
--   System          what the nuclei ask of the operating system: `System` answers by functions of
--                   the calls made before, and `SystemState` keeps these calls and the file handles
--                   of nucleus/fs/fs_handles_internal.h.
--   State           the state of pkg/rt/akx_rt.c, the names of the nuclei, and `Env`.
--   Rt              the monad `M` of the functions of pkg/rt/akx_rt.c. `failed` is the
--                   return of NULL, and `aborted` the end of the process. Rt/Builtins maps the names
--                   of nucleus/manifest.txt to the nuclei. Rt/Eval has `akx_rt_eval`,
--                   `akx_rt_eval_tail` and `akx_runtime_start`, Rt/Invoke the trampoline
--                   `akx_rt_invoke_lambda`, and Rt/Expand `akx_rt_expand_env_vars`.
--   Rt/Registry     the table of builtins in pkg/rt/akx_rt.c: registration, hot reload, module data,
--                   and its end in `akx_runtime_deinit`. The hooks of the modules are the fields of
--                   `Hooks`. It has a state of its own, since the functions of the evaluator's
--                   nuclei are not values of the state. Rt/Compiler has
--                   `akx_compiler_load_builtin_ex` of pkg/rt/akx_rt_compiler.c on that table, where
--                   `Jit` stands for `ak_cjit`, and Rt/Options the options of `cjit-load-builtin`
--                   with their evaluation.
--   Rt/Within       the relation by which invariants of evaluation are proved: a rule for each way
--                   in which the code composes computations. The children named Runs apply these
--                   rules to each function; Rt/Scope, Rt/Errors, Rt/Flags and Rt/Args
--                   instantiate them. Rt/Eval/Kinds has rules of the same form for the kind of value
--                   that a nucleus returns, and Rt/Eval/Typed the table of kinds. Rt/Eval/Tail puts
--                   the tail position of a body and the trampoline together.
--   Nucleus         the nuclei: Core for nucleus/core, Lambda for nucleus/core/lambda.c, Lists for
--                   cons, car and cdr, Numbers for nucleus/math, Logic for nucleus/logic, Compare
--                   for nucleus/cmp, Types for nucleus/types, Strings for nucleus/str (concat.c, and
--                   split.c in Strings/Split), Iter for nucleus/iter/iter.c, Putf and Scanf for
--                   nucleus/io, Assert for nucleus/assert, Import for nucleus/core/import.c and
--                   nucleus/akx/exec.c, and Reals for the files real_*.c of math, cmp and logic. Fs
--                   has the nuclei of nucleus/fs that take paths, with those of nucleus/os in
--                   Fs/Paths; Fs/Handles has open.c, close.c, seek.c and tell.c, Fs/Write write.c
--                   and Fs/Read read.c. Files has what these share.
--   Parse           pkg/cell/akx_cell.c: string escapes, the error list, the location of an
--                   unterminated list, the recursive descent (Parse/Grammar), and the top level with
--                   virtual lists, `akx_cell_parse_buffer` and `akx_cell_unwrap_quoted`
--                   (Parse/Program). `ak_scanner_t`, `ak_buffer_t`, `atoi` and `atof` are the fields
--                   of `Scanner` (Parse/Scanner). Parse/Placed says where the cells of a chain lie
--                   in the source; each part has its proofs in a child module.
--   Repl            pkg/repl: repl_buffer.c (Repl/Buffer), repl_display.c (Repl/Display) and the loop
--                   and the prelude of repl.c (Repl/Loop).
--   Command         cmd/akx: the choice of a command, the run of a script, and the lists of nuclei.
--   Tests           a concrete scope chain, and the theorems at concrete inputs.
--
-- What stands outside. The scopes (`ak_context_t`), the map of builtins, `akx_cell_unwrap_quoted`
-- and the parser as the nuclei call them, the arithmetic and printing of doubles, the comparison of
-- lambda pointers and what `ak_lambda_free` does to a captured context are the fields of `Env`, a
-- parameter, and so are the answers of the operating system, a `System`; the C library functions
-- that path expansion calls are those of `Libc`. What the code relies on in the scopes stands in
-- the records `HasDepth`, `HasKeys`, `HoldsHandles` and `KeepsHandles`, and the positions that it
-- relies on in the scanner in `StaysInside`. The map of builtins can name only the nuclei of
-- `Builtin`, those of nucleus/manifest.txt: a program that loads another one at run time is outside
-- the model.
--
-- Conventions. A double is its 64-bit pattern. An `ak_lambda_t *` is the number of the context that
-- it captured, and its clones share that context. Allocation succeeds. `set` frees the
-- value that it replaces: its lambdas are given to `lambda_free`, behind which their contexts may
-- read as anything. The other calls of `akx_cell_free` have no effect in the model, so that the reuse
-- of a cell that one of them freed by mistake is not observed. Values are copied where the code
-- links cells; where `iter` would link an element behind a lambda, which a scope may hold, the run
-- ends as `aborted`, and the theorems on what it gives say nothing of it.
-- A file handle that is freed stays in the table as none, and its use ends the run. The message of
-- an error that is formatted from a freed path has the text of the path. What is printed is
-- appended to a field of the runtime. Integer results wrap around in 32 bits, also where C leaves
-- overflow undefined. Names are compared up to a NUL, and an error message keeps 255 bytes.
--
-- Fuel. `eval` spends one unit for each evaluator call that a nucleus or the trampoline makes, and
-- the same number bounds the rounds of `loop` and of the trampoline, and the white space that
-- io/scanf skips; `timeout` says that it ran out. An AKX program has no bound known in advance, so
-- the fuel is an argument everywhere. The loop of path expansion reads at least one byte in each
-- round, so its fuel, one more than the length of the path, is enough. The parser calls itself at
-- the same position at most twice before it reads a byte, so 2 * n + 2 units and n + 1 rounds are
-- enough for n bytes. All other loops go down a list or a number of lines.
--
-- Not modelled: the symbols and the header text that a compiled unit is given, the start and the
-- accessors of the runtime, the reading of memory behind a format that ends in a backslash, the
-- error display, the file of the REPL's history, and in cmd/akx the help text and the signals.
pub mod Base
pub mod Cell
pub mod System
pub mod State
pub mod Rt
pub mod Nucleus
pub mod Parse
pub mod Repl
pub mod Command
mod Tests
