-- ===== src/Executor/Io.antt =====
-- Waiting for readiness in src/executor.rs. `Instant::now()` is an argument, in milliseconds.
pub mod Wake
use vproc.Prelude.{
  ℕ, ◌+◌, List, [], ◌∷◌, ◌++◌, Bool, true, false, ◌&&◌, Option, none, some, ◌==◌, leb,
  if◌then◌else◌, contains, not, map,
}
use vproc.Prelude.Int.{ℤ, pos, negsuc}
use vproc.Prelude.Assoc.{Assoc, lookup, modify}
use vproc.Coroutine.{VPid, Coroutine, IoWait, is_done}
use vproc.Executor.{Executor}

-- `libc::pollfd`; the event sets are bit masks.
pub record PollFd : Type 0 where
  pub fd : ℤ
  pub events : ℕ
  pub revents : ℕ

unfoldable pub deadline_of : ℕ → ℤ → Option ℕ
deadline_of now (pos timeout_ms) = some (now + timeout_ms)
deadline_of now (negsuc n) = none

-- From inside a coroutine, up to the `mco_yield`.
unfoldable pub yield_for_io : Executor → ℕ → List (ℤ × ℕ) → ℤ → Executor
unfolding deadline_of is_done
yield_for_io ex now fds timeout_ms = elim ex.current [
  | none ↦ ex
  | some pid ↦
      let wait : IoWait = record { fds = fds; deadline = deadline_of now timeout_ms } in
      record ex {
        vprocs =
            modify pid (λ c. if is_done c then c else record c { io_wait = some wait }) ex.vprocs;
      }
]

-- The inner loop of `collect_io_waits`.
unfoldable pub poll_entries : VPid → List (ℤ × ℕ) → List (PollFd × VPid)
poll_entries pid [] = []
poll_entries pid ((fd, events) ∷ fds) =
    (record { fd = fd; events = events; revents = 0 }, pid) ∷ poll_entries pid fds

unfoldable pub waits_of : Coroutine → List (ℤ × ℕ)
waits_of c = elim c.io_wait [ none ↦ [] | some wait ↦ wait.fds ]

-- The two parallel vectors of `collect_io_waits`, as one list of pairs.
unfoldable pub collect_io_waits : Assoc Coroutine → List (PollFd × VPid)
unfolding poll_entries waits_of
collect_io_waits [] = []
collect_io_waits ((pid, c) ∷ vprocs) = poll_entries pid (waits_of c) ++ collect_io_waits vprocs

-- `if !ready_pids.contains(&pid) { ready_pids.push(pid); }`
unfoldable pub push_new : VPid → List VPid → List VPid
push_new pid pids = if contains pid pids then pids else pids ++ pid ∷ []

-- The first loop of `wake_io_ready`: the processes whose descriptors are ready.
unfoldable pub ready_loop : List (PollFd × VPid) → List VPid → List VPid
unfolding push_new
ready_loop [] ready_pids = ready_pids
ready_loop ((pfd, pid) ∷ polled) ready_pids =
    ready_loop polled (if pfd.revents == 0 then ready_pids else push_new pid ready_pids)

-- `now >= deadline`, of a coroutine that waits with a deadline.
unfoldable pub is_expired : ℕ → Coroutine → Bool
is_expired now c = elim c.io_wait [
  | none ↦ false
  | some wait ↦ elim wait.deadline [ none ↦ false | some deadline ↦ leb deadline now ]
]

-- The second loop: those whose deadline has passed.
unfoldable pub expired_loop : ℕ → Assoc Coroutine → List VPid → List VPid
unfolding push_new is_expired
expired_loop now [] ready_pids = ready_pids
expired_loop now ((pid, c) ∷ vprocs) ready_pids =
    expired_loop now vprocs (if is_expired now c then push_new pid ready_pids else ready_pids)

-- One round of the last loop: out of the wait, and into the queue unless queued already.
unfoldable pub wake_one : VPid → Executor → Executor
unfolding push_new
wake_one pid ex = record ex {
  vprocs = modify pid (λ c. record c { io_wait = none }) ex.vprocs;
  ready_queue = push_new pid ex.ready_queue;
}

unfoldable pub wake_loop : List VPid → Executor → Executor
unfolding wake_one
wake_loop [] ex = ex
wake_loop (pid ∷ pids) ex = wake_loop pids (wake_one pid ex)

unfoldable pub wake_io_ready : Executor → ℕ → List (PollFd × VPid) → Executor
unfolding ready_loop expired_loop wake_loop
wake_io_ready ex now polled = wake_loop (expired_loop now ex.vprocs (ready_loop polled [])) ex
