-- ===== src/Executor/Step/Killed.antt =====
-- A pending SIGKILL or SIGTERM when a step delivers signals.
use vproc.Prelude.{ℕ, ◌≡◌, [], Bool, true, false, some, arith}
use vproc.Prelude.Int.{ℤ}
use vproc.Prelude.Assoc.{lookup, modify, lookup-modify_self}
use vproc.Coroutine.{VPid, Coroutine, State, is_done, set_done, start_running, stop_running}
use vproc.Executor.{pick_next, exit_code_of, first_fatal}
use vproc.Executor.Signals.{deliver_some, stopped, lookup-stopped}
use vproc.Executor.Step.{World, resume, step, step_from_driver, switch_to}

module _ (body : ℕ → World → World) (is_dead : ℕ → World → Bool) where
  abbrev started : VPid → World → World
  started pid w =
      let ex = w.executor in
      record w { executor = record ex { vprocs = modify pid start_running ex.vprocs } }

  -- A coroutine that yields at once, and is not dead, leaves its process ready.
  resume_idle :
      (w : World) (pid : VPid) (c : Coroutine)
      → lookup pid w.executor.vprocs ≡ some c
      → ((v : World) → body c.co v ≡ v)
      → ((v : World) → is_dead c.co v ≡ false)
      → lookup pid (resume body is_dead pid w).executor.vprocs
        ≡ some (record c { state = State.ready })
  unfolding resume stop_running start_running is_done
  resume_idle w pid c h idle alive =
      let vprocs = w.executor.vprocs in
      ground (
        arith,
        idle (started pid w),
        alive (started pid w),
        lookup-modify_self pid start_running c vprocs h,
        lookup-modify_self pid (stop_running false) (start_running c)
            (modify pid start_running vprocs),
      )

  -- `step` does not resume a process that a pending signal kills: whatever its coroutine would do,
  -- the process ends up done, with exit code 128 plus the signal.
  pub step_kills :
      (w : World) (pid : VPid) (c : Coroutine) (sig : ℤ)
      → (pick_next w.executor).0 ≡ some pid
      → lookup pid w.executor.vprocs ≡ some c
      → first_fatal c.pending_signals ≡ some sig
      → let (worked, w') = step body is_dead w in
        (worked ≡ true)
        × (lookup pid w'.executor.vprocs
            ≡ some (set_done (record c { pending_signals = [] }) (exit_code_of sig)))
        × (w'.fds ≡ w.fds)
        × (w'.executor.switch_count ≡ w.executor.switch_count)
  unfolding step pick_next
  step_kills w pid c sig picked h fatal =
      let ex = (pick_next w.executor).1 in
      ground (arith, deliver_some ex pid c h sig fatal, lookup-stopped ex pid c h sig)

  -- `step_from_driver` resumes the process that it picks even if a pending signal has just killed it:
  -- if its coroutine yields again without touching the executor, the process is ready afterwards,
  -- with the exit code of the signal and no signal pending.
  pub step_from_driver_revives :
      (w : World) (pid : VPid) (c : Coroutine) (sig : ℤ)
      → (pick_next w.executor).0 ≡ some pid
      → lookup pid w.executor.vprocs ≡ some c
      → first_fatal c.pending_signals ≡ some sig
      → ((v : World) → body c.co v ≡ v)
      → ((v : World) → is_dead c.co v ≡ false)
      → lookup pid (step_from_driver body is_dead w).executor.vprocs
        ≡ some (record (set_done (record c { pending_signals = [] }) (exit_code_of sig)) {
          state = State.ready;
        })
  unfolding step_from_driver pick_next set_done
  step_from_driver_revives w pid c sig picked h fatal idle alive =
      let ex = (pick_next w.executor).1 in
      let left = set_done (record c { pending_signals = [] }) (exit_code_of sig) in
      let taken = record w {
        executor = switch_to pid (record ex { vprocs = stopped ex pid c h sig });
      } in
      ground (
        arith,
        deliver_some ex pid c h sig fatal,
        lookup-stopped ex pid c h sig,
        resume_idle taken pid left (lookup-stopped ex pid c h sig) idle alive,
      )
