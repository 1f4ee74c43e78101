-- ===== src/Preload/Execve.antt =====
-- `execve` of src/preload.rs, and the way it waits where it falls back on a real process.
pub mod Zero
use vproc.Prelude.{
  ℕ, ◌+◌, ◌/◌, ◌%◌, ◌^◌, Bool, true, false, ◌||◌, not, Option, none, some, List, ◌==◌, Result, ok,
  err, if◌then◌else◌,
}
use vproc.Prelude.Int.{ℤ, pos, is_negative, ◌==ℤ◌}
use vproc.Prelude.Named.{Name}
use vproc.Coroutine.{VPid}
use vproc.Executor.Exit.{vproc_exit_with_code}
use vproc.Preload.Host.{Mode, passes}
use vproc.Preload.Process.{is_positive}
use vproc.Vexec.Exec.{Platform, Machine, VexecError}
use vproc.Vexec.Exec.Whole.{virtual_execve}

-- How `execve` goes on: as the system call itself, at the end of the calling process, in the child
-- of a real fork, back in the caller with -1 and an `errno`, or waiting for a real child.
pub data ExecveTurn : Type 0 where
  system_call ends real_child : ExecveTurn
  refused : ℕ → ExecveTurn
  waits_for : ℤ → ExecveTurn

abbrev pub enoexec : ℕ
enoexec = 8

-- What `execve` works on: the machine, `EXECVE_CALL_COUNT` and `REAL_FORK_CHILD`.
pub record Caller {ℓ} (K : Type ℓ) : Type ℓ where
  pub machine : Machine K
  pub call_count : ℕ
  pub real_fork_child : Bool

-- `vproc_exit_with_code` on the machine.
abbrev pub exit_machine {ℓ} : {K : Type ℓ} → ℤ → Machine K → Machine K
exit_machine code m = record m { executor = vproc_exit_with_code m.executor code }

module _ {ℓ} {K : Type ℓ} (p : Platform K) (real_fork : K → ℤ × K) where
  -- After `virtual_execve`.
  unfoldable pub finish_execve :
      Result VexecError VPid × Machine K → Caller K → ExecveTurn × Caller K
  finish_execve (ok vpid, m) caller = (ends, record caller { machine = exit_machine (pos 0) m })
  finish_execve (err e, m) caller =
      let (pid, k) = real_fork m.kernel in
      let forked : Caller K = record caller { machine = record m { kernel = k } } in
      let parent : ExecveTurn × Caller K =
        if pid ==ℤ pos 0
        then (real_child, record forked { real_fork_child = true })
        else (waits_for pid, forked) in
      if is_negative pid then (refused enoexec, forked) else parent

  -- `has_executor` is that the executor pointer is not null. The two arrays are vectors of strings.
  unfoldable pub execve :
      Bool → Bool → Name → List Name → List Name → Caller K → ExecveTurn × Caller K
  unfolding finish_execve
  execve enabled has_executor path argv envp caller =
      let counted : Caller K = record caller { call_count = (caller.call_count + 1) % 2 ^ 64 } in
      if not enabled || caller.real_fork_child || not has_executor
      then (system_call, counted)
      else finish_execve (virtual_execve p path argv envp caller.machine) counted

-- The exit code for the status of a real child: `WIFEXITED`, then `WIFSIGNALED`.
unfoldable pub code_of_status : ℕ → ℕ
code_of_status status =
    let signal = status % 128 in
    if signal == 0 then status / 256 % 256 else (if signal == 127 then 1 else 128 + signal)

-- One round of the loop that waits, where `wait4` returned `ret` and the status: the exit code of the
-- calling process, or `none` to yield and look again.
unfoldable pub execve_wait_round : ℤ → ℕ → Option ℕ
unfolding code_of_status
execve_wait_round ret status =
    if is_positive ret
    then some (code_of_status status)
    else (if is_negative ret then some (code_of_status 0) else none)
