-- ===== src/Lib.antt =====
-- ckb-js runs JavaScript as a script of the CKB blockchain. Its own code, beside the copied
-- QuickJS engine, is modelled here part by part.
--
-- CellFs (include/ckb_cell_fs.c and .h): the file system whose archives are cell data. A stack of
--   nodes is mounted over an explicit byte memory; CellFs.Archive is the specification, the format
--   of docs/fs.md (`pack`) and the lookup of a name, CellFs.Scan and CellFs.Mount prove `get_file`
--   and `load_fs` against it. Integers on the machine are little-endian.
-- Stdio (include/c-stdlib/src/stdio_impl.c): streams over that file system. A function is either
--   passed to the host, ends the process, is undefined behaviour, or is done; uint32_t arithmetic
--   is written out. Stdio.Read and Stdio.Sequence prove the reads, Stdio.Open `fopen`; Stdio.Gate
--   has the functions that are not implemented. Two flags decide which way a call goes, and both
--   are 0 at the start; `by_access` of Stdio.Read says which. The state after `enable_fs_access(1)`
--   is `with_fs_access`. The file defines that function and no code of the repository calls it:
--   without it, and without local access, each function of a stream ends the process.
-- Syscall (quickjs/ckb_module.c): the functions of the object `ckb`. Syscall has the arguments and
--   `syscall_load`, Syscall.Bindings the loading functions, Syscall.Process the others,
--   Syscall.Registry and Syscall.Constants the tables of their names and arities and of the
--   constants; the proofs are in Syscall.Partial, Syscall.Arguments and Syscall.Programs.
-- Loader (quickjs/ckb_module.c): the cell that holds the program; proofs in
--   Loader.Layout and Loader.Locate.
-- Modules (quickjs/std_module.c): the module loader; proofs in Modules.Resolve.
-- Vm (quickjs/qjs.c): the command line, the ways to run a program, the compiler and `main`; proofs
--   in Vm.CommandLine, Vm.Mounted and Vm.Output. Vm.Errors has the dump of an exception, with
--   `printf` of include/c-stdlib/src/printf_impl.c, and its proofs. Vm uses Loader, Modules and
--   CellFs as the code does.
-- Engine: the interface to the JavaScript engine, which Modules and Vm take as a parameter.
-- Malloc (include/c-stdlib/src/malloc_impl.c): the allocator. Malloc has the sizes, the bins'
--   indices and the program break, with proofs in Malloc.Bins and Malloc.Sizes; Malloc.Heap has
--   chunks and bins over a memory of 64-bit words, and Malloc.Alloc `malloc`, `realloc` and
--   `free`. The invariant of the heap is Malloc.Invariant.IsHeap, over the lists of the bins
--   (Malloc.Links and Malloc.Insert) and the chunks side by side (Malloc.Layout, Malloc.Growth);
--   the proofs have one file for each operation: `lock_bin` in Malloc.Take, `unbin` in
--   Malloc.Unbin, `bin_chunk` in Malloc.Bin, `trim` in Malloc.Cut and Malloc.Trim, `expand_heap`
--   in Malloc.Expand and Malloc.Obtain, the search in Malloc.Find, `malloc` in Malloc.Allocate
--   and, for the first call, in Malloc.Fresh and Malloc.Begin, the merging of `free` in
--   Malloc.Merging and Malloc.Settle, and `free` in Malloc.Release; the ways of `realloc` are in
--   Malloc.Shrink, Malloc.Extend, Malloc.Copy and Malloc.Move, and all of it in Malloc.Resize.
--   Malloc.History has a client that calls `malloc`, `realloc` and `free` and writes into its
--   blocks (Malloc.Write), as a step relation, and Malloc.Client and Malloc.Contents the theorems
--   about it. Malloc.Splice is about single operations. The other parts take the outcomes of
--   allocations as Booleans and do not use the allocator.
-- Strings (include/c-stdlib/src/string_impl.c): functions on strings and characters. Strings has
--   the searches for a byte and the comparison, with proofs in Strings.Search; Strings.Sets the
--   spans, with proofs in Strings.Spans; Strings.Memory `memchr`, with proofs in Strings.Digits,
--   Strings.Passes and Strings.Chr; Strings.Find and Strings.Needle `strstr`, with proofs in
--   Strings.Windows and Strings.Found for needles of up to four bytes, and in Strings.Turns,
--   Strings.Moves, Strings.Loop and Strings.Haystack for `twoway_strstr`, which searches for
--   longer ones;
--   Strings.Ctype the tables of characters, with proofs in Strings.Classes; Strings.Numbers
--   `strtof`, `strtod` and `strtold`, with the floating-point arithmetic as a parameter and
--   without the last conversion of `strtod` from `long double`, and with proofs in Strings.Power,
--   Strings.Decimal and Strings.ReadBack.
-- Jump (include/c-stdlib/src/string_impl.c): `setjmp` and `longjmp`, as instructions of a machine;
--   proofs in Jump.Saves and Jump.Restore.
-- Console (quickjs/std_module.c): `console.log` and `console.assert`; Console.Helpers has the
--   global objects of a program, with proofs in Console.Properties and Console.Globals.
-- Prelude has shared notation, lists and numbers, Fixtures what the tests share.
--
-- Parameters. The engine's functions are fields of Engine, of Console.Values, of
-- Console.Helpers.Objects (with how JavaScript's objects behave as the hypothesis
-- Console.Properties.IsObjects) and of Vm.Errors.Exceptions, or conversions in Syscall.Process; the
-- system calls of the network are functions of the bindings, whose documented partial loading is
-- the hypothesis Syscall.Partial.IsPartialLoad; the molecule reader, the search for a dependency
-- and the debugger's local file are fields of Loader.Chain and Vm.Run.Host; `vsnprintf` and
-- `memcmp` are arguments of what calls them. The outcome of each allocation is a Boolean. Each is
-- instantiated by a concrete function in the Tests modules and in Strings.Searches.
--
-- Fuel. The loop that prints bytecode has the number of bytes and one more, which is enough since
-- a round takes 32; a loop of `fgetc` has the number of bytes left and one more. The search of
-- `malloc` counts the bits from its bin up to 64, and the loop over an exponent its 32 bits. The
-- loop of `memchr` over words has the number of bytes, of which each turn takes 8, the loops of
-- `twoway_strstr` over the needle twice its length and its search one turn for each byte and one
-- more, as each turn moves on; out of fuel it is left in the middle, with no result, so that its
-- theorem says that it ends. All other recursion is structural.
--
-- Not modelled: the engine and the libraries copied with it; the messages of `main`; the
-- mathematical functions and locale of include/c-stdlib, and `vsnprintf`, of a copied library; that
-- `twoway_strstr` finds its needle; failures of the engine when it makes the result object of a
-- system call; side effects of the conversion of arguments.
pub mod CellFs
pub mod Console
pub mod Engine
pub mod Fixtures
pub mod Jump
pub mod Loader
pub mod Malloc
pub mod Modules
pub mod Prelude
pub mod Stdio
pub mod Strings
pub mod Syscall
pub mod Vm
