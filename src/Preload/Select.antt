-- ===== src/Preload/Select.antt =====
-- `select` of src/preload.rs: what it asks `poll` for, and what it makes of the answer.
pub mod Bits
use vproc.Prelude.{
  ℕ, zero, suc, ◌+◌, ◌*◌, ◌/◌, ◌%◌, ◌^◌, min, List, [], ◌∷◌, Bool, true, false, Option, none, some,
  ◌==◌, if◌then◌else◌,
}
use vproc.Prelude.Int.{ℤ, pos, negsuc, minus_one, ◌==ℤ◌}
use vproc.Executor.Io.{PollFd}
use vproc.Preload.Host.{as_c_int}
use vproc.Preload.Process.{is_positive}
use vproc.Preload.Poll.{pollin, pollpri, pollout, has_event}

abbrev pub fd_setsize : ℕ
fd_setsize = 1024

-- `fd_set`, by `FD_ISSET`; a pointer to one may be null.
abbrev pub FdSet : Type 0
FdSet = ℕ → Bool

-- The arguments `readfds`, `writefds` and `exceptfds`.
pub record FdSets : Type 0 where
  pub readfds : Option FdSet
  pub writefds : Option FdSet
  pub exceptfds : Option FdSet

-- `!fds.is_null() && FD_ISSET(fd, fds)`
abbrev pub is_in : Option FdSet → ℕ → Bool
is_in none fd = false
is_in (some set) fd = set fd

-- `timeout_ms`, from `tv_sec` and `tv_usec`, which are not negative; a null pointer is `none`.
unfoldable pub timeout_ms : Option (ℕ × ℕ) → ℤ
timeout_ms none = minus_one
timeout_ms (some (sec, usec)) = as_c_int ((sec * 1000 + usec / 1000) % 2 ^ 32)

-- The `events` for a descriptor; the three flags are different bits.
unfoldable pub events_of : FdSets → ℕ → ℕ
events_of sets fd =
    (if is_in sets.readfds fd then pollin else 0)
    + (if is_in sets.writefds fd then pollout else 0)
    + (if is_in sets.exceptfds fd then pollpri else 0)

-- `for fd in 0..max_fd`, of which `left` are left from `fd` on.
unfoldable pub build_from : FdSets → ℕ → ℕ → List PollFd
unfolding events_of
build_from sets zero fd = []
build_from sets (suc left) fd =
    let rest = build_from sets left (fd + 1) in
    let pfd : PollFd = record { fd = pos fd; events = events_of sets fd; revents = 0 } in
    if events_of sets fd == 0 then rest else pfd ∷ rest

-- `nfds.min(FD_SETSIZE)`; a range up to a negative number is empty.
unfoldable pub build_pollfds : FdSets → ℤ → List PollFd
unfolding build_from
build_pollfds sets (pos nfds) = build_from sets (min nfds fd_setsize) 0
build_pollfds sets (negsuc n) = []

-- The loop of `FD_SET` for one flag, on a set that has been cleared.
unfoldable pub set_bits : ℕ → List PollFd → FdSet
set_bits flag [] fd = false
set_bits flag (pfd ∷ pollfds) fd =
    let others = set_bits flag pollfds fd in
    if has_event flag pfd.revents then (if pfd.fd ==ℤ pos fd then true else others) else others

-- What becomes of a set: cleared, and filled where `poll` found something.
unfoldable pub refill : ℕ → ℤ → List PollFd → Option FdSet → Option FdSet
unfolding set_bits
refill flag ret pollfds none = none
refill flag ret pollfds (some set) =
    some (if is_positive ret then set_bits flag pollfds else (λ fd. false))

-- After `poll` has returned `ret`.
unfoldable pub select_results : ℤ → List PollFd → FdSets → FdSets
unfolding refill
select_results ret pollfds sets = record {
  readfds = refill pollin ret pollfds sets.readfds;
  writefds = refill pollout ret pollfds sets.writefds;
  exceptfds = refill pollpri ret pollfds sets.exceptfds;
}

-- `select` in a process, where `poll` on the descriptors and the timeout returns a result and sets the
-- `revents`.
unfoldable pub select_fds :
    (List PollFd → ℤ → ℤ × List PollFd) → ℤ → FdSets → Option (ℕ × ℕ) → ℤ × FdSets
unfolding build_pollfds select_results timeout_ms
select_fds poll nfds sets timeout =
    let (ret, pollfds) = poll (build_pollfds sets nfds) (timeout_ms timeout) in
    (ret, select_results ret pollfds sets)
