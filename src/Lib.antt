-- ===== src/Lib.antt =====
-- Verification library of vproc, an in-process supervisor of virtual processes.
--
-- A virtual process is a coroutine with a number, a descriptor table of its own, pending signals
-- and an exit code. The executor keeps the processes and a ready queue; the driver thread resumes
-- the head of the queue, and a process runs until it yields, waits for descriptors or ends. The
-- intercepted system calls work on the descriptor table of the running process; when a process has
-- ended, the executor reaps it, and its table gives back the real descriptors to close.
--
-- The files and what they model (paths from the root of the repository):
--   Vfd/Pipe     src/vfd.rs, `PipeBuffer`: the 64 KiB ring buffer of a virtual pipe. Pipe/Stream is
--                the abstract pipe, a list of bytes with a closed flag, and Pipe/Refine relates
--                the two.
--   Vfd/Table    src/vfd.rs, `VfdTable`: allocation, insertion and the two ways to close.
--   Vfd/Share    src/vfd.rs, `VfdTable`: close-on-exec, dup, dup2, pipes, fork, `Drop`.
--   Vfd/Tables   src/vfd.rs: the tables by process, and `remove_table_and_get_fds`.
--   Coroutine    src/coroutine.rs: the record of a process, its constructors, and the stack data
--                of `new_elf`.
--   Executor     src/executor.rs: spawning, fork, the ready queue and signals; Executor/Step the
--                scheduler steps and the swap of real descriptors, Executor/Exit exit codes and
--                children, Executor/Io waiting for descriptors, Executor/Reap the removal of ended
--                processes.
--   Elf          src/elf.rs: Elf/Format the structures and `read_at`, Elf/Headers the header, the
--                program headers and the span, Elf/Dynamic the dynamic table and relocations.
--   Loader       src/loader.rs: pages, slots, the memory of a loaded image, the auxiliary vector.
--   Preload      src/preload.rs: Preload/Paths `resolve_path`, Preload/Fds the intercepted close,
--                dup and dup2, Preload/Process identifiers, signals, chdir and waitpid,
--                Preload/Pipes read and write on virtual pipes, Preload/Calls the whole of the
--                two, Preload/Poll and Preload/Select poll and select, Preload/Execve execve,
--                Preload/Open the functions that open, query and seek files, and getcwd,
--                Preload/Leave fork, exit and waitpid; Preload/Host is what they work on.
--   Vexec        src/vexec.rs: Vexec/Start the search for `main`, Vexec/Segments the memory of a
--                loaded program, Vexec/Got its global offset table, Vexec/Cache the cache of
--                binaries, Vexec/Exec the ways to start a program.
--   Ffi          src/ffi.rs: Ffi/Session the sessions and the calls that wait for a driver,
--                Ffi/Driver the driver of a session a round at a time, Ffi/Fork `vproc_ffi_fork`,
--                Ffi/Fds the descriptor operations, Ffi/Context what acts on the running process,
--                and `c_array_to_vec` of src/lib.rs.
--   Prelude      the shared types and lemmas: numbers, lists, integers, association lists.
--
-- State and representation. A hash map is an association list, a new entry at its end; where the
-- code iterates over a map, the model uses the order of the list, and theorems that depend on
-- the content alone are stated by lookup. An `Arc<PipeBuffer>` is an index into a heap of
-- buffers, an `Arc<FileRef>` is a number that identifies it beside its content. `u32` and `u64`
-- counters and sums wrap around as in a release build; the theorems on new numbers ask for room
-- below 2^32. Raw pointers, closures and C strings are known by number. A result `Result<T, i32>` is
-- `Result`, and -1 and 0 results are integers as in the code.
--
-- Loops. Each loop is structural recursion over the list that it walks or the count that it runs
-- to, but the search for a free descriptor number, which runs on fuel: one more than the table has
-- descriptors, since at most so many candidates are taken; that the search then ends at a free number
-- is part of the theorems on insertion; and the loop in which a caller waits for the driver, 1001
-- looks of fuel, which a theorem shows to be enough. The outer loop of `poll` runs for a number of
-- rounds, which the theorem on it leaves open.
--
-- Threads. An `Arc<Mutex<Session>>` is an index into a heap of sessions. A driver and a caller take
-- turns at the lock of a session; what the others do while it is dropped is a function or a step
-- of a relation, and what a caller sees of its result at each look is a function of the look. Where a
-- caller of `vproc_ffi_create_process` waits for the lock to wake the driver, whether it is granted is
-- an argument.
--
-- Parameters. What a coroutine does between two switches (`mco_resume` up to `mco_yield`) is a
-- function on the executor and the tables, and the status of its minicoro context afterwards is a
-- predicate. Loading a program for a spawn request is a function too. The time is an argument in
-- milliseconds. Whether the system grants an mmap or mprotect is the record `System` of Loader. The
-- real C library is the record `Kernel` of Preload/Host, the record `OpenCalls` of Preload/Open, and
-- functions for the real poll, read, write, fork and wait4. The dynamic linker, the file system and
-- minicoro, as far as starting a program needs them, are the record `Platform` of Vexec/Exec.
--
-- Not modelled: the coroutine library coro/minicoro.c, the C shim preload/, logging, the examples
-- and tests; of src/preload.rs the terminal functions, pipe and the lookup of real symbols;
-- `spawn_main_coroutine` and `mte_available` of src/vexec.rs, which nothing calls.
pub mod Prelude
pub mod Vfd
pub mod Coroutine
pub mod Executor
pub mod Elf
pub mod Loader
pub mod Preload
pub mod Vexec
pub mod Ffi
