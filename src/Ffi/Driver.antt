-- ===== src/Ffi/Driver.antt =====
-- `run_session_driver` of src/ffi.rs, a round at a time: the thread that runs the processes of a
-- session. The lock of the session is held from the start of a round to the `poll`, and again after
-- it. Loading a program, what a process runs, and the kernel are parameters.
pub mod Answers
pub mod Requests
pub mod Stop
pub mod Sleep
mod Tests
use vproc.Prelude.{
  ℕ, List, [], ◌∷◌, Bool, true, false, ◌||◌, not, Option, none, some, if◌then◌else◌, any, map,
}
use vproc.Prelude.Int.{ℤ, pos, is_negative}
use vproc.Prelude.Assoc.{Assoc, insert, any_value}
use vproc.Coroutine.{VPid, Coroutine, is_done}
use vproc.Executor.{Executor}
use vproc.Executor.Exit.{get_exit_code}
use vproc.Executor.Io.{PollFd, collect_io_waits, wake_io_ready}
use vproc.Executor.Reap.{reap_done_coroutines, is_nonempty}
use vproc.Executor.Step.{World}
use vproc.Executor.Step.Swap.{step_from_driver_with_fd_swap}
use vproc.Vfd.Tables.{FdTables, create_table_with_fds, cleanup}
use vproc.Ffi.Session.{SpawnRequest, Waiter, Session}

-- The session, the table storage, the kernel, and the results written so far: those of spawn requests
-- and those of waiters.
pub record DriverState {ℓ} (K : Type ℓ) : Type ℓ where
  pub session : Session
  pub fds : FdTables
  pub kernel : K
  pub spawned : Assoc VPid
  pub exits : Assoc ℤ

-- Where a round ends: the thread returns, the process aborts, the driver polls without the lock, or
-- it goes on to wait for work.
pub data Round {ℓ} (K : Type ℓ) : Type ℓ where
  returns : DriverState K → Round K
  aborts : Round K
  polls : DriverState K → List (PollFd × VPid) → Round K
  waits : DriverState K → Round K

-- `if d >= 0 { d } else { fallback }`
abbrev pub saved_or : ℤ → ℕ → ℤ
saved_or d fallback = if is_negative d then pos fallback else d

-- The closure of `s.waiters.retain`, over all waiters: those kept, and the results.
unfoldable pub answer_waiters : Executor → List Waiter → Assoc ℤ → List Waiter × Assoc ℤ
answer_waiters ex [] exits = ([], exits)
answer_waiters ex (w ∷ waiters) exits =
    let (kept, exits') = answer_waiters ex waiters exits in
    elim (get_exit_code ex w.vpid) [
      | some code ↦ answer_waiters ex waiters (insert w.result code exits)
      | none ↦ (w ∷ kept, exits')
    ]

unfoldable pub has_ready : Executor → Bool
unfolding is_done
has_ready ex =
    any_value (λ c. not (is_done c || elim c.io_wait [ none ↦ false | some wait ↦ true ])) ex.vprocs

unfoldable pub has_work : Session → Bool
unfolding has_ready
has_work s = is_nonempty s.spawn_queue || is_nonempty s.waiters || has_ready s.executor

-- The last loop leaves the condition variable when this holds.
unfoldable pub wakes_up : Session → Bool
unfolding has_work
wakes_up s = has_work s || s.shutdown

-- After the `poll`, which has returned `ready` and filled in the `revents`, at the time `now`.
unfoldable pub after_poll : ℤ → ℕ → List (PollFd × VPid) → Session → Session
unfolding wake_io_ready
after_poll ready now polled s =
    if is_negative ready then s else record s { executor = wake_io_ready s.executor now polled }

module _ {ℓ} {K : Type ℓ} where
  -- `dup_fd` is `libc::dup`. The descriptors are saved, and the self-test counts as passed.
  unfoldable pub start_driver : (ℤ → K → ℤ × K) → DriverState K → DriverState K
  start_driver dup_fd d =
      let (d0, k0) = dup_fd (pos 0) d.kernel in
      let (d1, k1) = dup_fd (pos 1) k0 in
      let (d2, k2) = dup_fd (pos 2) k1 in
      let s = d.session in
      let started : Session = record s {
        saved_fds = (saved_or d0 0, saved_or d1 1, saved_or d2 2);
        probe_result = some (pos 0);
      } in
      record d { session = started; kernel = k2 }

  -- `real_close` for each descriptor.
  unfoldable pub close_all : (ℤ → K → K) → List ℤ → K → K
  close_all real_close [] k = k
  close_all real_close (fd ∷ fds) k = close_all real_close fds (real_close fd k)

  -- `s.executor.reap_done_coroutines()`
  unfoldable pub reap : (ℤ → K → K) → DriverState K → DriverState K
  unfolding close_all
  reap real_close d =
      let s = d.session in
      let (ex, fds, closed) = reap_done_coroutines s.executor d.fds in
      record d {
        session = record s { executor = ex };
        fds = fds;
        kernel = close_all real_close closed d.kernel;
      }

  -- The arm for shutdown. `cleanup` drops the tables of the whole storage.
  unfoldable pub stop_driver : (ℤ → K → K) → DriverState K → DriverState K
  unfolding reap cleanup
  stop_driver real_close d =
      let reaped = reap real_close d in record reaped { fds = cleanup reaped.fds }

  -- The check of the waiters, the reaping, and the collected I/O waits.
  unfoldable pub settle : (ℤ → K → K) → DriverState K → DriverState K × List (PollFd × VPid)
  unfolding answer_waiters reap
  settle real_close d =
      let s = d.session in
      let (kept, exits) = answer_waiters s.executor s.waiters d.exits in
      let answered : DriverState K = record d {
        session = record s { waiters = kept };
        exits = exits;
      } in
      let reaped = reap real_close answered in
      (reaped, collect_io_waits reaped.session.executor.vprocs)

  module _ (dup3 : ℤ → ℤ → K → ℤ × K) (body : ℕ → World × K → World × K)
      (is_dead : ℕ → World × K → Bool) where
    -- `s.executor.step_from_driver_with_fd_swap(saved_fds)`; `none` is the abort.
    unfoldable pub drive : DriverState K → Option (DriverState K)
    drive d =
        let s = d.session in
        let w : World = record { executor = s.executor; fds = d.fds } in
        elim (step_from_driver_with_fd_swap dup3 body is_dead s.saved_fds (w, d.kernel)) [
          | none ↦ none
          | some (w', k) ↦
              some (record d {
                session = record s { executor = w'.executor };
                fds = w'.fds;
                kernel = k;
              })
        ]

  -- `load` is `virtual_execve_via_entry` of src/vexec.rs, which is `none` where that is an error.
  module _ (load : SpawnRequest → World × K → Option VPid × World × K) where
    unfoldable pub serve_one : SpawnRequest → DriverState K → DriverState K
    unfolding create_table_with_fds
    serve_one request d =
        let s = d.session in
        let (loaded, w, k) =
          load request (record { executor = s.executor; fds = d.fds }, d.kernel) in
        let after : DriverState K = record d {
          session = record s { executor = w.executor };
          fds = w.fds;
          kernel = k;
        } in
        elim loaded [
          | none ↦ record after { spawned = insert request.result 0 d.spawned }
          | some vpid ↦ record after {
            fds =
                create_table_with_fds w.fds vpid request.stdin_fd request.stdout_fd
                  request.stderr_fd;
            spawned = insert request.result vpid d.spawned;
          }
        ]

    unfoldable pub serve_all : List SpawnRequest → DriverState K → DriverState K
    unfolding serve_one
    serve_all [] d = d
    serve_all (request ∷ requests) d = serve_all requests (serve_one request d)

    -- `drain(..)` of the queue, and the loop over what it held.
    unfoldable pub drain_queue : DriverState K → DriverState K
    unfolding serve_all
    drain_queue d =
        let s = d.session in
        serve_all s.spawn_queue (record d { session = record s { spawn_queue = [] } })

    module _ (dup3 : ℤ → ℤ → K → ℤ × K) (body : ℕ → World × K → World × K)
        (is_dead : ℕ → World × K → Bool) (real_close : ℤ → K → K) where
      -- A round from the lock of the session to the `poll` or to the wait for work.
      unfoldable pub driver_round : DriverState K → Round K
      unfolding stop_driver drain_queue drive settle
      driver_round d =
          let running : Round K = elim (drive dup3 body is_dead (drain_queue d)) [
            | none ↦ aborts
            | some driven ↦
                let (settled, polled) = settle real_close driven in
                if is_nonempty polled then polls settled polled else waits settled
          ] in
          if d.session.shutdown then returns (stop_driver real_close d) else running
