-- ===== src/Ffi/Tests.antt =====
-- The theorems on the functions of src/ffi.rs at concrete tables, processes and sessions.
use vproc.Prelude.{
  ℕ, ◌≡◌, ◌≢◌, refl, List, [], ◌∷◌, true, false, none, some, arith, if◌then◌else◌, get_elem?, ◌==◌,
  leb,
}
use vproc.Prelude.Int.{ℤ, pos}
use vproc.Prelude.Assoc.{lookup, insert}
use vproc.Coroutine
use vproc.Coroutine.{Coroutine}
use vproc.Executor
use vproc.Executor.{Executor, spawn_front, spawn_fork_child, forked}
use vproc.Vfd.Table.{real, file, FileRef, VfdTable, get}
use vproc.Vfd.Tables.{FdTables, get_table, fork_fd_table}
use vproc.Preload.Host.{Kernel, Host, Mode, as_u32}
use vproc.Preload.Fds
use vproc.Ffi.Fds.{vproc_ffi_get_cwd, vproc_ffi_close}
use vproc.Ffi.Fds.Agree.{vproc_ffi_close-close}
use vproc.Ffi.Fork.{fork_enter, fork_resume}
use vproc.Ffi.Fork.Twice.{returned, resumed_next, fork_returns_twice}
use vproc.Ffi.Session.{
  SpawnRequest, Sessions, new_session, find_session, push_request, vproc_ffi_create_session,
  vproc_ffi_destroy_session, vproc_ffi_create_process,
}
use vproc.Ffi.Session.Polls.{vproc_ffi_create_process_answers}
use vproc.Ffi.Session.Registry.{
  IsSane, no_sessions, create, Reach, start, next, Reach-IsSane,
  vproc_ffi_destroy_session-find_session,
}

abbrev no_fds : FdTables
no_fds = record { tables = []; pipes = [] }

-- A process in "/a".
abbrev shell : Coroutine
shell = record (Coroutine.new 1 100 7) { cwd = some (47 ∷ 97 ∷ []) }

abbrev ex : Executor
ex = record Executor.new { vprocs = (1, shell) ∷ []; next_pid = 2; current = some 1 }

get_cwd_run : vproc_ffi_get_cwd ex 1 (9 ∷ 9 ∷ 9 ∷ 9 ∷ []) 3 ≡ (pos 0, 47 ∷ 97 ∷ 0 ∷ 9 ∷ [])
unfolding vproc_ffi_get_cwd lookup
get_cwd_run = refl

abbrev sys : Kernel (List ℤ)
sys = record {
  close_fd = λ fd closed. (pos 0, fd ∷ closed);
  dup_fd = λ fd closed. (fd, closed);
  dup2_fd = λ old_fd new_fd closed. (new_fd, closed);
  change_dir = λ path closed. (pos 0, closed);
  send_signal = λ pid sig closed. (pos 0, closed);
  raise_signal = λ sig closed. (pos 0, closed);
}

abbrev log_file : FileRef
log_file = record { real_fd = pos 40; cloexec = false }

abbrev own : VfdTable
own = record { fds = (0, real (pos 0)) ∷ (5, file 7 log_file) ∷ []; next_fd = 6 }

abbrev host : Host (List ℤ)
host = record {
  executor = ex;
  fds = record { tables = (1, own) ∷ []; pipes = [] };
  kernel = [];
  errno = 0;
}

abbrev mode : Mode
mode = record { enabled = true; fork_child = false }

vproc_ffi_close-close_example :
    let (ret, s, k) = vproc_ffi_close (λ fd k. (sys.close_fd fd k).1) host.fds 1 (pos 5) [] in
    Fds.close sys mode (pos 5) host ≡ (ret, record host { fds = s; kernel = k })
unfolding get_table get as_u32 lookup
vproc_ffi_close-close_example =
    vproc_ffi_close-close sys mode 1 own (file 7 log_file) (pos 5) host refl refl refl refl refl

-- The executor in the middle of a fork, and after the helper has run.
abbrev yielded : Executor
yielded = (spawn_front (record ex { saved_fork_lr = some 4096 }) 101 8).1

abbrev helped : Executor
helped = forked yielded 1 shell 102

fork_returns_twice_example :
    let parent : ℕ = 1 in
    let child : ℕ = 3 in
    let parent_first = fork_resume 0 (record helped { current = some parent }) in
    let child_first = fork_resume 0 (record helped { current = some child }) in
    (returned parent_first ≡ some (child, 4096))
    × (resumed_next parent_first child 8 ≡ some (0, 8))
    × (returned child_first ≡ some (0, 4096))
    × (resumed_next child_first parent 8 ≡ some (child, 8))
    × (child ≢ parent)
unfolding fork_enter spawn_fork_child spawn_front lookup insert Coroutine.new forked
fork_returns_twice_example =
    fork_returns_twice ex yielded helped no_fds (fork_fd_table no_fds 1 3) 1 3 shell 4096 0 8 101 8
      102 refl refl (λ e. omega arith) (λ e. omega arith) refl refl

abbrev request : SpawnRequest
request = record {
  path = 47 ∷ [];
  argv = [];
  envp = [];
  stdin_fd = pos 10;
  stdout_fd = pos 11;
  stderr_fd = pos 12;
  result = 0;
}

abbrev one : Sessions
one = (vproc_ffi_create_session no_sessions).1

abbrev two : Sessions
two = (vproc_ffi_create_session one).1

two-Reach : Reach two
two-Reach = next (next start (create no_sessions)) (create one)

-- The lock is free at the third attempt, and the answer is there at the fifth look.
vproc_ffi_create_process_answers_example :
    let (answer, s') =
      vproc_ffi_create_process
        (λ i. i == 2)
        true
        (λ i. if leb 4 i then some 1 else none)
        two
        2
        request in
    (answer ≡ some 1) × (get_elem? s'.arcs 1 ≡ some (push_request request (new_session 2)))
unfolding vproc_ffi_create_session find_session lookup insert
vproc_ffi_create_process_answers_example =
    vproc_ffi_create_process_answers (λ i. i == 2) true (λ i. if leb 4 i then some 1 else none) two
      2 1 2 4 (new_session 2) request 1 refl (omega arith) refl (omega arith)
      (λ j h. ground (arith, h)) refl

Reach-IsSane_example : IsSane two
Reach-IsSane_example = Reach-IsSane two-Reach

vproc_ffi_destroy_session-find_session_example :
    let s' = vproc_ffi_destroy_session two 1 in
    (find_session s' 1 ≡ none)
    × (get_elem? s'.arcs 0 ≡ some (record (new_session 1) { shutdown = true }))
    × ((other : ℕ) → other ≢ 1 → find_session s' other ≡ find_session two other)
unfolding vproc_ffi_create_session find_session lookup insert
vproc_ffi_destroy_session-find_session_example =
    vproc_ffi_destroy_session-find_session 1 0 (new_session 1) two-Reach refl
