-- ===== src/Preload/Leave.antt =====
-- `fork`, `exit`, `_exit`, `waitpid` and `wait4` of src/preload.rs, `waitpid` one round of its loops at
-- a time.
pub mod Child
use vproc.Prelude.{ℕ, ◌/◌, ◌%◌, Bool, true, false, Option, none, some, ◌==◌, ◌&&◌, if◌then◌else◌}
use vproc.Prelude.Int.{ℤ, pos, minus_one, is_negative, ◌==ℤ◌}
use vproc.Prelude.Assoc.{contains_key}
use vproc.Executor.{Executor}
use vproc.Executor.Exit.{vproc_exit_with_code}
use vproc.Preload.Host.{Host, Mode, passes, as_u32}
use vproc.Preload.Process.{is_positive, waitpid_round}

-- `fork` and `vfork`: the real one, and in the child `REAL_FORK_CHILD` is set.
unfoldable pub fork {ℓ} : {K : Type ℓ} → (K → ℤ × K) → Mode → K → ℤ × Mode × K
fork real_fork mode k =
    let (pid, k') = real_fork k in
    let child : Mode = record mode { fork_child = true } in
    if mode.enabled && (pid ==ℤ pos 0) then (pid, child, k') else (pid, mode, k')

-- How `exit` and `_exit` end: in the `_exit` of the C library, in the end of the running process, or in
-- the system call that ends all.
pub data ExitTurn : Type 0 where
  real_exit process_ends exit_group : ExitTurn

unfoldable pub exit : Mode → ℤ → Executor → ExitTurn × Executor
unfolding vproc_exit_with_code
exit mode code ex =
    let virtual : ExitTurn × Executor = elim ex.current [
      | none ↦ (exit_group, ex)
      | some vpid ↦ (process_ends, vproc_exit_with_code ex code)
    ] in
    if passes mode then (real_exit, ex) else virtual

-- The real `wait4`: the number and the options; the result and the status.
abbrev pub RealWait {ℓ} : Type ℓ → Type ℓ
RealWait K = ℤ → ℕ → K → ℤ × ℕ × K

abbrev pub wnohang : ℕ
wnohang = 1

-- A round of the loop for a real child: its result, or `none` to yield and look again.
unfoldable pub wait_real : ℤ → ℕ → Option (ℤ × Option ℕ)
wait_real ret status =
    if is_positive ret
    then some (ret, some status)
    else (if is_negative ret then some (minus_one, none) else none)

-- A round of `waitpid`: the result with the status, or `none` to yield and look again.
unfoldable pub waitpid {ℓ} :
    {K : Type ℓ} → RealWait K → Mode → ℤ → ℕ → Executor → K → Option (ℤ × Option ℕ) × K
unfolding wait_real waitpid_round
waitpid {K = K} wait4 mode pid options ex k =
    let (ret, status, k') = wait4 pid options k in
    let passed : Option (ℤ × Option ℕ) × K = (some (ret, some status), k') in
    let (looked, found, k'') = wait4 pid wnohang k in
    let polled : Option (ℤ × Option ℕ) × K = (wait_real looked found, k'') in
    let of_child : Option (ℤ × Option ℕ) × K = if options % 2 == 1 then passed else polled in
    if passes mode
    then passed
    else (if contains_key (as_u32 pid) ex.vprocs then (waitpid_round ex pid, k) else of_child)
