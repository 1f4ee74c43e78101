-- ===== src/Executor/Io/Wake.antt =====
-- `wake_io_ready`: who is woken, and the queue afterwards.
use vproc.Prelude.{
  ℕ, ◌≡◌, refl, List, [], ◌∷◌, ◌++◌, Bool, false, ◌&&◌, ◌||◌, not, none, some, arith, ◌==◌,
  if◌then◌else◌, any, contains, Bool-cases, inl, inr,
}
use vproc.Prelude.Assoc.{Assoc, lookup, lookup-modify}
use vproc.Coroutine.{VPid, Coroutine}
use vproc.Executor.{Executor}
use vproc.Executor.Io.{
  PollFd, push_new, ready_loop, is_expired, expired_loop, wake_one, wake_loop, wake_io_ready,
}

-- Some polled entry of the process has an event.
abbrev pub has_event : VPid → List (PollFd × VPid) → Bool
has_event pid polled = any (λ e. not (e.0.revents == 0) && (e.1 == pid)) polled

-- The process waits with a deadline that has passed.
abbrev pub has_expired : ℕ → VPid → Assoc Coroutine → Bool
has_expired now pid vprocs = any (λ e. is_expired now e.1 && (e.0 == pid)) vprocs

contains-append : (a : ℕ) (xs ys : List ℕ) → contains a (xs ++ ys) ≡ contains a xs || contains a ys
contains-append a [] ys = refl
contains-append a (x ∷ xs) ys = ground (arith, contains-append a xs ys)

contains-push_new : (a b : ℕ) (xs : List ℕ) → contains a (push_new b xs) ≡ contains a xs || (b == a)
unfolding push_new
contains-push_new a b xs = ground (arith, contains-append a xs (b ∷ []))

contains-ready_loop :
    (pid : VPid) (polled : List (PollFd × VPid)) (pids : List VPid)
    → contains pid (ready_loop polled pids) ≡ contains pid pids || has_event pid polled
unfolding ready_loop
contains-ready_loop pid [] pids = ground arith
contains-ready_loop pid ((pfd, q) ∷ polled) pids = ground (
  arith,
  contains-ready_loop pid polled pids,
  contains-ready_loop pid polled (push_new q pids),
  contains-push_new pid q pids,
)

contains-expired_loop :
    (now : ℕ) (pid : VPid) (vprocs : Assoc Coroutine) (pids : List VPid)
    → contains pid (expired_loop now vprocs pids) ≡ contains pid pids || has_expired now pid vprocs
unfolding expired_loop
contains-expired_loop now pid [] pids = ground arith
contains-expired_loop now pid ((q, c) ∷ vprocs) pids = ground (
  arith,
  contains-expired_loop now pid vprocs pids,
  contains-expired_loop now pid vprocs (push_new q pids),
  contains-push_new pid q pids,
)

-- A coroutine out of its wait.
abbrev pub woken : Coroutine → Coroutine
woken c = record c { io_wait = none }

wake_loop_vprocs :
    (pids : List VPid) (ex : Executor) (pid : VPid) (c : Coroutine)
    → lookup pid ex.vprocs ≡ some c
    → lookup pid (wake_loop pids ex).vprocs ≡ some (if contains pid pids then woken c else c)
unfolding wake_loop
wake_loop_vprocs [] ex pid c h = h
wake_loop_vprocs (q ∷ pids) ex pid c h =
    let c' = if q == pid then woken c else c in
    let now : lookup pid (wake_one q ex).vprocs ≡ some c' =
      ground (arith, lookup-modify q pid woken ex.vprocs) in
    ground (arith, wake_loop_vprocs pids (wake_one q ex) pid c' now)

wake_loop_queue :
    (pids : List VPid) (ex : Executor) (pid : VPid)
    → contains pid (wake_loop pids ex).ready_queue
      ≡ contains pid ex.ready_queue || contains pid pids
unfolding wake_loop
wake_loop_queue [] ex pid = ground arith
wake_loop_queue (q ∷ pids) ex pid =
    ground (arith, wake_loop_queue pids (wake_one q ex) pid, contains-push_new pid q ex.ready_queue)

-- Every entry stands once.
abbrev pub Once : List VPid → Type 0
Once [] = Unit {0}
Once (pid ∷ pids) = (contains pid pids ≡ false) × Once pids

append-Once : (xs : List VPid) (a : VPid) → Once xs → contains a xs ≡ false → Once (xs ++ a ∷ [])
append-Once [] a o h = (refl, tt)
append-Once (x ∷ xs) a o h =
    (ground (arith, contains-append x xs (a ∷ [])), append-Once xs a o.1 (ground arith))

push_new-Once : (a : VPid) (xs : List VPid) → Once xs → Once (push_new a xs)
unfolding push_new
push_new-Once a xs o = elim (Bool-cases (contains a xs)) [
  | inl there ↦ rw there o
  | inr absent ↦ rw absent (append-Once xs a o absent)
]

wake_loop-Once :
    (pids : List VPid) (ex : Executor) → Once ex.ready_queue → Once (wake_loop pids ex).ready_queue
unfolding wake_loop
wake_loop-Once [] ex o = o
wake_loop-Once (q ∷ pids) ex o =
    wake_loop-Once pids (wake_one q ex) (push_new-Once q ex.ready_queue o)

-- `wake_io_ready` wakes exactly the processes with an event among the polled descriptors and those
-- whose deadline has passed: such a process does not wait any more and is queued; any other is as
-- it was, and queued only if it was.
pub wake_io_ready_lem :
    (ex : Executor) (now : ℕ) (polled : List (PollFd × VPid)) (pid : VPid) (c : Coroutine)
    → lookup pid ex.vprocs ≡ some c
    → let ex' = wake_io_ready ex now polled in
      let wakes = has_event pid polled || has_expired now pid ex.vprocs in
      (lookup pid ex'.vprocs ≡ some (if wakes then woken c else c))
      × (contains pid ex'.ready_queue ≡ contains pid ex.ready_queue || wakes)
unfolding wake_io_ready
wake_io_ready_lem ex now polled pid c h =
    let pids = expired_loop now ex.vprocs (ready_loop polled []) in
    (
      ground (
        arith,
        wake_loop_vprocs pids ex pid c h,
        contains-expired_loop now pid ex.vprocs (ready_loop polled []),
        contains-ready_loop pid polled [],
      ),
      ground (
        arith,
        wake_loop_queue pids ex pid,
        contains-expired_loop now pid ex.vprocs (ready_loop polled []),
        contains-ready_loop pid polled [],
      ),
    )

-- A ready queue without repetitions stays without: nobody is queued twice by a wake-up.
pub wake_io_ready-Once :
    (ex : Executor) (now : ℕ) (polled : List (PollFd × VPid))
    → Once ex.ready_queue
    → Once (wake_io_ready ex now polled).ready_queue
unfolding wake_io_ready
wake_io_ready-Once ex now polled o =
    wake_loop-Once (expired_loop now ex.vprocs (ready_loop polled [])) ex o
