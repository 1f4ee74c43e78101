-- ===== src/Preload/Tests.antt =====
-- The theorems on src/preload.rs at concrete paths, tables and processes.
use vproc.Prelude.{
  ℕ, ◌<◌, ◌≡◌, ◌≢◌, false, ◌↔◌, ◌==◌, refl, List, [], ◌∷◌, ◌++◌, true, false, Option, none, some,
  arith, if◌then◌else◌,
}
use vproc.Prelude.Int.{ℤ, pos, ◌==ℤ◌, ==ℤ_iff, is_negative}
use vproc.Prelude.Assoc.{lookup}
use vproc.Coroutine
use vproc.Coroutine.{Coroutine, set_done}
use vproc.Executor
use vproc.Executor.{Executor, deliver_signals, is_fatal}
use vproc.Vfd.Table.{real, pipe_read, pipe_write, file, FileRef, VfdTable, get}
use vproc.Preload.Open.{OpenCalls, get_cwd, path_for, open_file}
use vproc.Preload.Open.Restores.{Unheld, ReadsAs, open_close}
use vproc.Preload.Calls
use vproc.Preload.Calls.Guarded.{read_guarded, write_guarded}
use vproc.Preload.Poll.{RealPoll, entry_of, look_at, poll_rounds}
use vproc.Preload.Poll.Expires.{ready, poll_rounds_wait}
use vproc.Preload.Poll.Agrees.{look_at_agrees}
use vproc.Preload.Select.{FdSets, select_fds}
use vproc.Preload.Select.Bits.{answering, is_found, Holds, select_fds_lem}
use vproc.Executor.Io.{PollFd}
use vproc.Vfd.Table.{refers_to_file}
use vproc.Vfd.Table.Alloc.{IsValid}
use vproc.Vfd.Tables.{FdTables, get_table}
use vproc.Preload.Paths.{slash, split, components, enter, walk, join, render, resolve_path}
use vproc.Preload.Paths.Resolve.{resolve_path-resolve_path}
use vproc.Preload.Host.{Kernel, Host, Mode, as_u32}
use vproc.Preload.Fds
use vproc.Preload.Fds.Close.{Closes, close_lem}
use vproc.Preload.Fds.Clobber.{dup2_clobbers}
use vproc.Preload.Pipes.{returns, yields, read_end, write_end, read_round, write_round}
use vproc.Preload.Pipes.Transfer.{transfer}
use vproc.Vfd.Pipe
use vproc.Vfd.Pipe.{pipe_capacity}
use vproc.Vfd.Pipe.Inv.{new-IsValid}
use vproc.Preload.Process.{kill}
use vproc.Preload.Process.Kill.{kill_lem}

-- "/a/b" and "../c" give "/a/c".
resolve_path_run :
    resolve_path (47 ∷ 97 ∷ 47 ∷ 98 ∷ []) (46 ∷ 46 ∷ 47 ∷ 99 ∷ []) ≡ 47 ∷ 97 ∷ 47 ∷ 99 ∷ []
unfolding resolve_path components split enter walk render join
resolve_path_run = refl

resolve_path-resolve_path_example :
    let cwd : List ℕ = 47 ∷ 97 ∷ [] in
    let up : List ℕ = 46 ∷ 46 ∷ [] in
    let down : List ℕ = 98 ∷ [] in
    resolve_path (resolve_path cwd up) down ≡ resolve_path cwd (up ++ slash ∷ down)
resolve_path-resolve_path_example =
    resolve_path-resolve_path (47 ∷ 97 ∷ []) (46 ∷ 46 ∷ []) (98 ∷ []) refl refl refl

-- A kernel whose state tells the open file of each descriptor.
abbrev Files : Type 0
Files = ℤ → Option ℕ

abbrev assign : ℤ → Option ℕ → Files → Files
assign fd target files other = if other ==ℤ fd then target else files other

abbrev sys : Kernel Files
sys = record {
  close_fd = λ fd k. (pos 0, assign fd none k);
  dup_fd = λ fd k. (pos 90, assign (pos 90) (k fd) k);
  dup2_fd = λ old_fd new_fd k. (new_fd, assign new_fd (k old_fd) k);
  change_dir = λ path k. (pos 0, k);
  send_signal = λ pid sig k. (pos 0, k);
  raise_signal = λ sig k. (pos 0, k);
}

abbrev log_file : FileRef
log_file = record { real_fd = pos 40; cloexec = false }

abbrev own : VfdTable
own = record { fds = (0, real (pos 0)) ∷ (5, file 7 log_file) ∷ []; next_fd = 6 }

abbrev others : VfdTable
others = record { fds = (3, file 8 log_file) ∷ []; next_fd = 4 }

abbrev shell : Coroutine
shell = Coroutine.new 1 100 7

abbrev host : Host Files
host = record {
  executor = record Executor.new { vprocs = (1, shell) ∷ []; current = some 1 };
  fds = record { tables = (1, own) ∷ (2, others) ∷ []; pipes = [] };
  kernel = λ fd. none;
  errno = 0;
}

abbrev mode : Mode
mode = record { enabled = true; fork_child = false }

close_lem_example : Closes sys 5 1 own (file 7 log_file) host (Fds.close sys mode (pos 5) host)
unfolding lookup get get_table
close_lem_example =
    close_lem sys mode 5 1 own (file 7 log_file) host refl refl refl (omega arith)
      (refl, (refl, tt)) refl

-- Descriptor 0 refers to the open file 1, and 40 to the open file 2.
abbrev busy : Host Files
busy = record host { kernel = assign (pos 0) (some 1) (assign (pos 40) (some 2) (λ fd. none)) }

dup2_law :
    (source target : ℤ) (k : Files)
    → is_negative (sys.dup2_fd source target k).0 ≡ false
    → (sys.dup2_fd source target k).1 target ≡ k source
dup2_law source target k success = ground (arith, ==ℤ_iff target target)

dup2_clobbers_example :
    let (result, h') = Fds.dup2 sys mode 9 (pos 0) (pos 40) busy in
    (result ≡ pos 40)
    × ((other : ℕ) → 1 ≢ other → get_table h'.fds other ≡ get_table busy.fds other)
    × (h'.kernel (pos 40) ≡ some 1)
    × (h'.kernel (pos 40) ≢ busy.kernel (pos 40))
unfolding lookup get get_table as_u32
dup2_clobbers_example =
    dup2_clobbers sys (λ fd k. k fd) mode 1 2 9 (pos 0) (pos 40) (pos 0) 1 own others 3 8 log_file
      busy dup2_law refl refl refl refl refl refl (ground arith) refl refl refl
      (λ e. ground (arith, e))

kill_lem_example :
    let (result, h') = kill sys mode (pos 1) (pos 9) host in
    let (killed, ex) = deliver_signals h'.executor 1 in
    (result ≡ pos 0)
    × (h'.kernel ≡ host.kernel)
    × (killed ≡ true)
    × (lookup 1 ex.vprocs ≡ some (set_done (record shell { pending_signals = [] }) (pos 137)))
unfolding lookup as_u32 is_fatal Coroutine.new
kill_lem_example = kill_lem sys mode (pos 1) (pos 9) shell host refl refl refl tt refl

-- Process 1 has the writing end of a new pipe, and process 2 the reading end.
abbrev piped : FdTables
piped = record {
  tables =
      (1, record { fds = (4, pipe_write 0) ∷ []; next_fd = 5 })
      ∷ (2, record { fds = (3, pipe_read 0) ∷ []; next_fd = 4 })
      ∷ [];
  pipes = Pipe.new ∷ [];
}

transfer_example :
    let src : List ℕ = 7 ∷ 8 ∷ [] in
    let dst : List ℕ = 0 ∷ 0 ∷ 0 ∷ [] in
    let (written, s') = write_round piped 1 4 src in
    let (got, dst', s'') = read_round s' 2 3 dst in
    (written ≡ returns (pos 2)) × (got ≡ returns (pos 2)) × (dst' ≡ src ++ 0 ∷ [])
unfolding lookup get get_table read_end write_end Pipe.new pipe_capacity
transfer_example =
    transfer piped 1 4 2 3 0 Pipe.new (7 ∷ 8 ∷ []) (0 ∷ 0 ∷ 0 ∷ []) refl refl refl new-IsValid refl
      refl (omega arith) (omega arith) (omega arith)

-- `open` of "x" by process 1, which returns descriptor 6, and its `close`.
abbrev calls : OpenCalls Files
calls = record {
  open_path = λ path flags m k. (pos 50, assign (pos 50) (some 1) k);
  open_at = λ dir path flags m k. (pos 50, assign (pos 50) (some 1) k);
  create = λ path m k. (pos 50, assign (pos 50) (some 1) k);
}

own-IsValid : IsValid own
unfolding lookup
own-IsValid = record { fresh = refl; next_in = omega arith; distinct = (refl, (refl, tt)) }

own-Unheld : Unheld 9 own
unfolding lookup get refers_to_file
own-Unheld j other e = ground arith

open_close_example :
    let (fd, h') = open_file calls mode 9 (120 ∷ []) (pos 0) (pos 0) host in
    let (ret, h'') = Fds.close sys mode fd h' in
    (get own (as_u32 fd) ≡ none)
    × (ret ≡ pos 0)
    × (h''.kernel ≡ assign (pos 50) none (assign (pos 50) (some 1) host.kernel))
    × ReadsAs own (get_table h''.fds 1)
unfolding get_table lookup get_cwd path_for Coroutine.new
open_close_example =
    open_close calls sys mode 1 9 own (120 ∷ []) (120 ∷ []) (pos 0) (pos 0) host refl refl refl
      own-IsValid (omega arith) (omega arith) own-Unheld refl refl

-- A `poll` of the kernel that never finds a descriptor ready.
abbrev never : RealPoll (Unit {0})
never pfds timeout k = (pos 0, pfds, k)

abbrev ask_input : PollFd
ask_input = record { fd = pos 0; events = 1; revents = 0 }

-- Descriptor 0 of process 1 is real and is never ready: `poll` waits on after a timeout of 100 ms.
poll_rounds_wait_example :
    (poll_rounds never (λ r. (host.fds, tt)) 3 0 1 (ask_input ∷ []) (pos 100) ≡ none)
    ↔ ((r : ℕ) → r < 3 → ready never 1 (host.fds, tt) (ask_input ∷ []) ≡ 0)
poll_rounds_wait_example =
    poll_rounds_wait never 1 (λ r. (host.fds, tt)) (ask_input ∷ []) (pos 100) refl 3

abbrev ask_pipe : PollFd
ask_pipe = record { fd = pos 3; events = 1; revents = 0 }

look_at_agrees_example :
    ((look_at never piped 2 ask_pipe tt).found ≡ 0)
    ↔ ((read_round piped 2 (as_u32 (pos 3)) (0 ∷ [])).0 ≡ yields)
unfolding entry_of get_table get lookup as_u32 Pipe.new pipe_capacity
look_at_agrees_example =
    look_at_agrees never piped 2 0 Pipe.new ask_pipe tt (pipe_read 0) (0 ∷ []) refl (refl, refl)
      refl new-IsValid

-- Descriptor 3 in the set for reading, where `poll` finds POLLHUP alone.
abbrev reading : FdSets
reading = record { readfds = some (λ fd. fd == 3); writefds = none; exceptfds = none }

select_fds_lem_example :
    let (result, out) = select_fds (answering (pos 1) (λ fd. 16)) (pos 8) reading (some (1, 0)) in
    (result ≡ pos 1)
    × Holds reading.readfds out.readfds (is_found (λ fd. 16) reading 8 1)
    × Holds none out.writefds (is_found (λ fd. 16) reading 8 4)
    × Holds none out.exceptfds (is_found (λ fd. 16) reading 8 2)
select_fds_lem_example = select_fds_lem (λ fd. 16) reading 8 (pos 1) (some (1, 0)) refl

-- Descriptor 0 is real, and the kernel never finds it ready.
abbrev unready : RealPoll Files
unready pfds timeout k = (pos 0, pfds, k)

-- A `read` of the kernel that is at the end, and one that gets a byte; so for `write`.
abbrev read_nothing : List ℕ → ℤ → Files → ℤ × List ℕ × Files
read_nothing dst fd k = (pos 0, dst, k)

abbrev read_byte : List ℕ → ℤ → Files → ℤ × List ℕ × Files
read_byte dst fd k = (pos 1, 7 ∷ [], k)

abbrev write_nothing : List ℕ → ℤ → Files → ℤ × Unit {0} × Files
write_nothing src fd k = (pos 0, tt, k)

abbrev write_byte : List ℕ → ℤ → Files → ℤ × Unit {0} × Files
write_byte src fd k = (pos 1, tt, k)

read_guarded_example :
    Calls.read unready read_nothing mode (pos 0) (0 ∷ []) host
    ≡ Calls.read unready read_byte mode (pos 0) (0 ∷ []) host
read_guarded_example =
    read_guarded unready read_nothing read_byte mode 1 (pos 0) (0 ∷ []) host refl refl refl

write_guarded_example :
    Calls.write unready write_nothing mode (pos 0) (0 ∷ []) host
    ≡ Calls.write unready write_byte mode (pos 0) (0 ∷ []) host
write_guarded_example =
    write_guarded unready write_nothing write_byte mode 1 (pos 0) (0 ∷ []) host refl refl refl
