-- ===== src/Preload/Calls.antt =====
-- `read` and `write` of src/preload.rs as a whole, one round of their loops at a time.
pub mod Guarded
use vproc.Prelude.{ℕ, List, [], ◌∷◌, Bool, true, false, Option, none, some, if◌then◌else◌}
use vproc.Prelude.Int.{ℤ, minus_one, pos, is_negative}
use vproc.Executor.Io.{PollFd}
use vproc.Vfd.Table.{Vfd, real, file, ebadf}
use vproc.Vfd.Tables.{FdTables}
use vproc.Preload.Host.{Host, Mode, passes, as_u32}
use vproc.Preload.Process.{is_positive}
use vproc.Preload.Pipes.{Turn, fails, returns, is_pipe, read_round, write_round}
use vproc.Preload.Poll.{RealPoll, pollin, pollout, entry_of}

-- How a round ends: as on a virtual pipe, or in a wait for the events of real descriptors.
pub data CallTurn : Type 0 where
  turn : Turn → CallTurn
  waits_for : List (ℤ × ℕ) → CallTurn

-- The real descriptor that is read or written.
unfoldable pub real_target : Option Vfd → ℤ → ℤ
real_target (some (real r)) fd = r
real_target (some (file arc f)) fd = f.real_fd
real_target (some other) fd = fd
real_target none fd = fd

-- A round of the loop for a real descriptor; `call` is the real call on it, and `Out` what comes with
-- its result.
unfoldable pub real_round {ℓ μ} :
    {K : Type ℓ} {Out : Type μ}
    → RealPoll K
    → (ℤ → K → ℤ × Out × K)
    → ℕ
    → ℤ
    → Out
    → K
    → CallTurn × Out × K
real_round real_poll call flag real_fd out k =
    let pfd : PollFd = record { fd = real_fd; events = flag; revents = 0 } in
    let (ready, polled, k') = real_poll (pfd ∷ []) (pos 0) k in
    let (n, out', k'') = call real_fd k' in
    if is_positive ready
    then (turn (returns n), out', k'')
    else (if is_negative ready
        then (turn (returns minus_one), out, k')
        else (waits_for ((real_fd, flag) ∷ []), out, k'))

module _ {ℓ} {K : Type ℓ} (real_poll : RealPoll K) where
  -- `real_read` has the descriptor and the contents of `buf`, which `read` returns with its turn.
  unfoldable pub read :
      (List ℕ → ℤ → K → ℤ × List ℕ × K) → Mode → ℤ → List ℕ → Host K → CallTurn × List ℕ × Host K
  unfolding is_pipe real_target entry_of read_round real_round
  read real_read mode fd dst h =
      let (n, filled, k) = real_read dst fd h.kernel in
      let passed : CallTurn × List ℕ × Host K =
        (turn (returns n), filled, record h { kernel = k }) in
      let in_process : ℕ → CallTurn × List ℕ × Host K = λ vpid.
        let (piped, dst', fds') = read_round h.fds vpid (as_u32 fd) dst in
        let target = real_target (entry_of h.fds vpid fd) fd in
        let (step, dst'', k') = real_round real_poll (real_read dst) pollin target dst h.kernel in
        if is_pipe h.fds vpid (as_u32 fd)
        then (turn piped, dst', record h { fds = fds' })
        else (step, dst'', record h { kernel = k' }) in
      let virtual : CallTurn × List ℕ × Host K = elim h.executor.current [
        | none ↦ passed
        | some vpid ↦ in_process vpid
      ] in
      if passes mode
      then passed
      else (if is_negative fd then (turn (fails ebadf), dst, h) else virtual)

  -- `real_write` has the bytes and the descriptor. Nothing comes with its result.
  unfoldable pub write :
      (List ℕ → ℤ → K → ℤ × Unit {0} × K) → Mode → ℤ → List ℕ → Host K → CallTurn × Host K
  unfolding is_pipe real_target entry_of write_round real_round
  write real_write mode fd src h =
      let (n, _, k) = real_write src fd h.kernel in
      let passed : CallTurn × Host K = (turn (returns n), record h { kernel = k }) in
      let in_process : ℕ → CallTurn × Host K = λ vpid.
        let (piped, fds') = write_round h.fds vpid (as_u32 fd) src in
        let target = real_target (entry_of h.fds vpid fd) fd in
        let (step, _, k') = real_round real_poll (real_write src) pollout target tt h.kernel in
        if is_pipe h.fds vpid (as_u32 fd)
        then (turn piped, record h { fds = fds' })
        else (step, record h { kernel = k' }) in
      let virtual : CallTurn × Host K = elim h.executor.current [
        | none ↦ passed
        | some vpid ↦ in_process vpid
      ] in
      if passes mode then passed else (if is_negative fd then (turn (fails ebadf), h) else virtual)
