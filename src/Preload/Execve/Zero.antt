-- ===== src/Preload/Execve/Zero.antt =====
-- What the parent of a process that calls `execve` learns.
use vproc.Prelude.{
  ℕ, ◌^◌, ◌<◌, ◌≡◌, refl, sym, ◌∙◌, ap, true, false, some, List, ◌+◌, ◌%◌, ◌++◌, [], ◌∷◌, is_some,
  Result, ok, arith,
}
use mathlib.Core.Path.{subst}
use vproc.Prelude.Int.{ℤ, pos}
use vproc.Prelude.Named.{Name}
use vproc.Prelude.Assoc.{lookup, lookup-modify}
use vproc.Coroutine.{VPid, Coroutine, State}
use vproc.Executor.{Executor}
use vproc.Executor.Exit.{vproc_exit_with_code}
use vproc.Executor.Exit.Codes.{get_exit_code-exit}
use vproc.Preload.Host.{as_u32}
use vproc.Preload.Process.{waitpid_round, wait_status}
use vproc.Preload.Execve.{ends, Caller, finish_execve, execve}
use vproc.Vexec.Exec.{Platform, Machine, VexecError}
use vproc.Vexec.Exec.Whole.{virtual_execve}
use vproc.Vexec.Exec.Outcome.{Adds, Outcome, virtual_execve-Outcome}

same_pid : (n : ℕ) → n < 2 ^ 32 → as_u32 (pos n) ≡ n
unfolding as_u32
same_pid n small = omega (arith, small)

exit-waitpid :
    (ex : Executor) (pid : VPid)
    → ex.current ≡ some pid
    → pid < 2 ^ 32
    → waitpid_round (vproc_exit_with_code ex (pos 0)) (pos pid) ≡ some (pos pid, some 0)
unfolding waitpid_round wait_status as_u32
exit-waitpid ex pid running small =
    ground (arith, get_exit_code-exit ex pid pid (pos 0) running, same_pid pid small)

exit-queue :
    (ex : Executor) (pid other : VPid)
    → ex.current ≡ some pid
    → let ex' = vproc_exit_with_code ex (pos 0) in
      (ex'.ready_queue ≡ ex.ready_queue)
      × (is_some (lookup other ex'.vprocs) ≡ is_some (lookup other ex.vprocs))
unfolding vproc_exit_with_code
exit-queue ex pid other running =
    let end = λ (c : Coroutine). record c { state = State.done; exit_code = pos 0 } in
    (ground arith, ground (arith, lookup-modify pid other end ex.vprocs))

module _ {ℓ} {K : Type ℓ} (p : Platform K) (real_fork : K → ℤ × K) where
  finish_execve-ends :
      (before : Machine K) (caller : Caller K) (pid vpid : VPid) (m : Machine K)
      → before.executor.current ≡ some pid
      → pid < 2 ^ 32
      → Adds vpid before.executor m.executor
      → let (turn, after) = finish_execve p real_fork (ok vpid, m) caller in
        (turn ≡ ends)
        × (waitpid_round after.machine.executor (pos pid) ≡ some (pos pid, some 0))
        × (after.machine.executor.ready_queue
            ≡ before.executor.ready_queue ++ before.executor.next_pid ∷ [])
        × (is_some (lookup before.executor.next_pid after.machine.executor.vprocs) ≡ true)
  unfolding finish_execve
  finish_execve-ends before caller pid vpid m running small adds =
      let still = adds.same_current ∙ running in
      let (queue, there) = exit-queue m.executor pid before.executor.next_pid still in
      (
        refl,
        exit-waitpid m.executor pid still small,
        queue ∙ adds.is_queued ∙ ap (λ v. before.executor.ready_queue ++ v ∷ []) adds.is_next,
        there ∙ ap (λ v. is_some (lookup v m.executor.vprocs)) (sym adds.is_next) ∙ adds.is_there,
      )

  -- Where the program can be started, `execve` ends the calling process with exit code 0: a `waitpid` on
  -- it returns at once with the status 0, while the program is another process, with the next
  -- number, at the end of the ready queue.
  pub execve_ends :
      (path : Name) (argv envp : List Name) (caller : Caller K) (pid vpid : VPid)
      → caller.real_fork_child ≡ false
      → caller.machine.executor.current ≡ some pid
      → pid < 2 ^ 32
      → (virtual_execve p path argv envp caller.machine).0 ≡ ok vpid
      → let before = caller.machine.executor in
        let (turn, after) = execve p real_fork true true path argv envp caller in
        (turn ≡ ends)
        × (waitpid_round after.machine.executor (pos pid) ≡ some (pos pid, some 0))
        × (after.machine.executor.ready_queue ≡ before.ready_queue ++ before.next_pid ∷ [])
        × (is_some (lookup before.next_pid after.machine.executor.vprocs) ≡ true)
  unfolding execve
  execve_ends path argv envp caller pid vpid own running small started =
      let before = caller.machine in
      let m = (virtual_execve p path argv envp before).1 in
      let whole : virtual_execve p path argv envp before ≡ (ok vpid, m) =
        ap (λ (r : Result VexecError VPid). (r, m)) started in
      let adds : Adds vpid before.executor m.executor =
        subst (Outcome before.executor before.fds) whole
          (virtual_execve-Outcome p path argv envp before) in
      let counted : Caller K = record caller { call_count = (caller.call_count + 1) % 2 ^ 64 } in
      rw (own, whole) (finish_execve-ends before counted pid vpid m running small adds)
