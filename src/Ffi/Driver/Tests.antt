-- ===== src/Ffi/Driver/Tests.antt =====
-- The theorems on the driver of src/ffi.rs at a concrete session.
use vproc.Prelude.{
  ℕ, ◌≡◌, refl, List, [], ◌∷◌, Bool, true, Option, none, some, arith, if◌then◌else◌, get_elem?,
  ◌==◌, leb,
}
use vproc.Prelude.Int.{ℤ, pos}
use vproc.Prelude.Assoc.{lookup, insert}
use mathlib.Core.Option
use vproc.Coroutine
use vproc.Coroutine.{VPid, Coroutine, State, is_done}
use vproc.Executor
use vproc.Executor.{Executor, spawn_elf}
use vproc.Executor.Exit.{get_exit_code, code_of}
use vproc.Executor.Step.{World}
use vproc.Vfd.Tables.{FdTables}
use vproc.Ffi.Session.{
  SpawnRequest, Waiter, Session, Sessions, new_session, find_session, vproc_ffi_create_session,
  vproc_ffi_run_until_exit,
}
use vproc.Ffi.Session.Registry.{no_sessions}
use vproc.Ffi.Driver.{
  DriverState, driver_round, has_ready, has_work, wakes_up, settle, reap, answer_waiters,
}
use vproc.Ffi.Driver.Answers.{vproc_ffi_run_until_exit_returns}
use vproc.Ffi.Driver.Sleep.{unqueued, reaped_round, driver_round_idle}

abbrev no_fds : FdTables
no_fds = record { tables = []; pipes = [] }

abbrev gone : Coroutine
gone = record (Coroutine.new 1 100 7) { state = State.done; exit_code = pos 3 }

-- A process that waits for descriptor 5 until 1000.
abbrev reader : Coroutine
reader = record (Coroutine.new 2 101 8) {
  io_wait = some (record { fds = (pos 5, 1) ∷ []; deadline = some 1000 });
}

abbrev awaited : Waiter
awaited = record { vpid = 1; result = 0 }

abbrev pending : Waiter
pending = record { vpid = 2; result = 1 }

abbrev session : Session
session = record (new_session 1) {
  executor = record Executor.new { vprocs = (1, gone) ∷ (2, reader) ∷ [] };
  waiters = awaited ∷ pending ∷ [];
}

abbrev d : DriverState (List ℤ)
d = record { session = session; fds = no_fds; kernel = []; spawned = []; exits = [] }

abbrev real_close : ℤ → List ℤ → List ℤ
real_close fd closed = fd ∷ closed

abbrev running : Coroutine
running = Coroutine.new 1 100 7

abbrev left : Sessions
left = record (vproc_ffi_create_session no_sessions).1 {
  arcs =
      record (new_session 1) { executor = record Executor.new { vprocs = (1, running) ∷ [] } } ∷ [];
}

abbrev waiting : Session
waiting = record (new_session 1) { executor = record Executor.new { vprocs = (1, running) ∷ [] } }

abbrev ended : DriverState (List ℤ)
ended = record d {
  session = record waiting {
    executor = record Executor.new { vprocs = (1, gone) ∷ [] };
    waiters = awaited ∷ [];
  };
}

-- The result is there from the third look on.
abbrev seen : ℕ → Option ℤ
seen i = if leb 2 i then some (pos 3) else none

vproc_ffi_run_until_exit_returns_example :
    let (answer, s') = vproc_ffi_run_until_exit (λ s. s) seen left 1 1 0 in
    (answer ≡ pos 3)
    × (Option.map (λ (x : Session). x.waiters) (get_elem? s'.arcs 0) ≡ some (awaited ∷ []))
unfolding vproc_ffi_create_session find_session lookup insert get_exit_code code_of is_done
    Coroutine.new settle answer_waiters reap
vproc_ffi_run_until_exit_returns_example =
    vproc_ffi_run_until_exit_returns real_close (λ s. s) seen left 1 0 1 0 2 0 waiting waiting ended
      (pos 3) refl refl refl refl refl (tt, tt) refl (omega arith) (λ j h. ground (arith, h)) refl

abbrev request : ℕ → SpawnRequest
request n = record {
  path = 47 ∷ [];
  argv = [];
  envp = [];
  stdin_fd = pos 10;
  stdout_fd = pos 11;
  stderr_fd = pos 12;
  result = n;
}

-- Loading fails for the request with the result 7, and spawns a process for the others.
abbrev load : SpawnRequest → World × List ℤ → Option VPid × World × List ℤ
load r (w, k) =
    let (vpid, ex) = spawn_elf w.executor 200 65536 8192 in
    if r.result == 7 then (none, w, k) else (some vpid, record w { executor = ex }, k)

abbrev fresh : DriverState (List ℤ)
fresh = record d { session = new_session 1 }

abbrev dup3 : ℤ → ℤ → List ℤ → ℤ × List ℤ
dup3 old_fd new_fd k = (new_fd, k)

abbrev body : ℕ → World × List ℤ → World × List ℤ
body co w = w

abbrev is_dead : ℕ → World × List ℤ → Bool
is_dead co w = true

abbrev stopping : DriverState (List ℤ)
stopping = record d { session = record session { shutdown = true } }

-- One process is done and still queued, another waits for I/O.
abbrev resting : DriverState (List ℤ)
resting = record d {
  session = record session {
    executor = record Executor.new { vprocs = (1, gone) ∷ (2, reader) ∷ []; ready_queue = 1 ∷ [] };
    waiters = [];
  };
}

driver_round_idle_example :
    driver_round load dup3 body is_dead real_close resting
    ≡ reaped_round (reap real_close (unqueued resting))
unfolding wakes_up has_work has_ready is_done new_session lookup Coroutine.new
driver_round_idle_example =
    driver_round_idle load dup3 body is_dead real_close resting refl ((λ c h. ground arith), tt)
