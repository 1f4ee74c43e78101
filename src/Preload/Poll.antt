-- ===== src/Preload/Poll.antt =====
-- `poll` of src/preload.rs, one round of its loop at a time, and the rounds after one another.
pub mod Agrees
pub mod Expires
use vproc.Prelude.{
  ℕ, zero, suc, ◌+◌, ◌/◌, ◌%◌, List, [], ◌∷◌, ◌++◌, Bool, true, false, ◌&&◌, ◌||◌, not, Option,
  none, some, ltb, ◌==◌, if◌then◌else◌,
}
use vproc.Prelude.Int.{ℤ, pos, is_negative, ◌==ℤ◌}
use vproc.Executor.Io.{PollFd}
use vproc.Vfd.Pipe
use vproc.Vfd.Pipe.{PipeBuffer}
use vproc.Vfd.Table.{Vfd, real, file, pipe_read, pipe_write, VfdTable, Pipes, get}
use vproc.Vfd.Tables.{FdTables, get_table}
use vproc.Preload.Host.{Host, Mode, passes, as_u32, as_c_int}
use vproc.Preload.Process.{is_positive}
use vproc.Preload.Pipes.{buffer}

abbrev pub pollin : ℕ
pollin = 1

abbrev pub pollpri : ℕ
pollpri = 2

abbrev pub pollout : ℕ
pollout = 4

abbrev pub pollerr : ℕ
pollerr = 8

abbrev pub pollhup : ℕ
pollhup = 16

-- `events & flag != 0`, for a flag of one bit.
abbrev pub has_event : ℕ → ℕ → Bool
has_event flag events = events / flag % 2 == 1

-- The real `poll`: the descriptors and the timeout; the result, and the descriptors after it.
abbrev pub RealPoll {ℓ} : Type ℓ → Type ℓ
RealPoll K = List PollFd → ℤ → K → ℤ × List PollFd × K

-- `revents` of the one descriptor.
abbrev pub first_revents : List PollFd → ℕ
first_revents [] = 0
first_revents (pfd ∷ rest) = pfd.revents

-- The arms for the ends of a virtual pipe: the `revents`.
unfoldable pub read_events : Option (ℕ × PipeBuffer) → ℕ → ℕ
unfolding Pipe.is_empty Pipe.is_closed
read_events none events = 0
read_events (some (p, b)) events =
    if has_event pollin events && (not (Pipe.is_empty b) || Pipe.is_closed b)
    then (if Pipe.is_closed b then pollin + pollhup else pollin)
    else 0

unfoldable pub write_events : Option (ℕ × PipeBuffer) → ℕ → ℕ
unfolding Pipe.is_full Pipe.is_closed
write_events none events = 0
write_events (some (p, b)) events =
    if has_event pollout events
    then (if Pipe.is_full b then 0 else pollout) + (if Pipe.is_closed b then pollerr else 0)
    else 0

-- What a round finds for a descriptor: its `revents`, and what to wait for where it is not ready.
pub record Look {ℓ} (K : Type ℓ) : Type ℓ where
  pub found : ℕ
  pub wait : List (ℤ × ℕ)
  pub kernel : K

-- `crate::vfd::get_table(vpid).and_then(|t| t.get(pfd.fd as u32))`
unfoldable pub entry_of : FdTables → ℕ → ℤ → Option Vfd
unfolding get_table get
entry_of s vpid fd = elim (get_table s vpid) [ none ↦ none | some t ↦ get t (as_u32 fd) ]

module _ {ℓ} {K : Type ℓ} (real_poll : RealPoll K) where
  -- The arms for a real descriptor.
  unfoldable pub check_real : ℤ → ℕ → K → Look K
  check_real real_fd events k =
      let check : PollFd = record { fd = real_fd; events = events; revents = 0 } in
      let (ready, checked, k') = real_poll (check ∷ []) (pos 0) k in
      if is_positive ready
      then record { found = first_revents checked; wait = []; kernel = k' }
      else record { found = 0; wait = (real_fd, events) ∷ []; kernel = k' }

  unfoldable pub look_at : FdTables → ℕ → PollFd → K → Look K
  unfolding check_real entry_of read_events write_events
  look_at s vpid pfd k = elim (entry_of s vpid pfd.fd) [
    | some (pipe_read p) ↦ record {
      found = read_events (buffer s (some p)) pfd.events;
      wait = [];
      kernel = k;
    }
    | some (pipe_write p) ↦ record {
      found = write_events (buffer s (some p)) pfd.events;
      wait = [];
      kernel = k;
    }
    | some (real r) ↦ check_real r pfd.events k
    | some (file arc f) ↦ check_real f.real_fd pfd.events k
    | none ↦ check_real pfd.fd pfd.events k
  ]

  -- The inner loop: the descriptors with their `revents`, `count`, `wait_fds` and the kernel.
  unfoldable pub look_loop : FdTables → ℕ → List PollFd → K → List PollFd × ℕ × List (ℤ × ℕ) × K
  unfolding look_at
  look_loop s vpid [] k = ([], 0, [], k)
  look_loop s vpid (pfd ∷ pfds) k =
      let look = look_at s vpid pfd k in
      let (rest, count, wait_fds, k') = look_loop s vpid pfds look.kernel in
      (
        record pfd { revents = look.found } ∷ rest,
        (if look.found == 0 then count else count + 1),
        look.wait ++ wait_fds,
        k',
      )

  -- What a round of the outer loop comes to: the result, or `none` to wait for I/O; then the
  -- descriptors, what to wait for, and the kernel.
  unfoldable pub poll_round :
      FdTables → ℕ → List PollFd → ℤ → K → Option ℤ × List PollFd × List (ℤ × ℕ) × K
  unfolding look_loop
  poll_round s vpid pfds timeout k =
      let (pfds', count, wait_fds, k') = look_loop s vpid pfds k in
      let idle : Option ℤ = if timeout ==ℤ pos 0 then some (pos 0) else none in
      ((if ltb 0 count then some (as_c_int count) else idle), pfds', wait_fds, k')

  -- The outer loop for some rounds. The tables and the kernel that round `i` finds are `world i`, since
  -- other processes run while this one waits; `none` is a `poll` that still waits.
  unfoldable pub poll_rounds :
      (ℕ → FdTables × K) → ℕ → ℕ → ℕ → List PollFd → ℤ → Option (ℤ × List PollFd)
  unfolding poll_round
  poll_rounds world zero i vpid pfds timeout = none
  poll_rounds world (suc rounds) i vpid pfds timeout =
      let (s, k) = world i in
      let (result, pfds', wait_fds, k') = poll_round s vpid pfds timeout k in
      let later = poll_rounds world rounds (i + 1) vpid pfds' timeout in
      elim result [ none ↦ later | some ret ↦ some (ret, pfds') ]

-- Where `poll` goes: to the real one, or into the loop for a process.
pub data Route : Type 0 where
  to_real : Route
  to_loop : ℕ → Route

unfoldable pub poll_route {ℓ} : {K : Type ℓ} → Mode → Host K → List PollFd → Route
poll_route mode h pfds =
    let virtual : Route = elim h.executor.current [
      | none ↦ to_real
      | some vpid ↦ elim pfds [ [] ↦ to_real | _ ∷ _ ↦ to_loop vpid ]
    ] in
    if passes mode then to_real else virtual
