-- ===== src/Executor/Step/Swap.antt =====
-- `step_from_driver_with_fd_swap` of src/executor.rs and `raw_dup3` of src/ffi.rs. The real descriptors
-- are a state `K` of the kernel, `dup3` is its system call, and `body` also acts on them.
pub mod Installs
use vproc.Prelude.{ℕ, Bool, true, false, Option, none, some, ◌||◌, if◌then◌else◌}
use vproc.Prelude.Int.{ℤ, pos, negsuc, ◌==ℤ◌, is_negative}
use vproc.Prelude.Assoc.{lookup, modify}
use vproc.Coroutine.{VPid, start_running, stop_running}
use vproc.Executor.{Executor, pick_next, deliver_signals}
use vproc.Executor.Step.{World, switch_to}
use vproc.Vfd.Tables.{get_real_fds}

module _ {ℓ} {K : Type ℓ} (dup3 : ℤ → ℤ → K → ℤ × K) where
  -- Nothing is done for a negative descriptor or for one and the same.
  unfoldable pub raw_dup3 : ℤ → ℤ → K → ℤ × K
  raw_dup3 old_fd new_fd k =
      if is_negative old_fd || (old_fd ==ℤ new_fd) then (pos 0, k) else dup3 old_fd new_fd k

  -- `if raw_dup3(fd, to) < 0 { abort(); }`; `none` is the abort.
  unfoldable pub install_one : ℤ → ℤ → K → Option K
  unfolding raw_dup3
  install_one fd to k =
      let (ret, k') = raw_dup3 fd to k in if is_negative ret then none else some k'

  -- The three in a row, as before and after the resume.
  unfoldable pub install_fds : ℤ × ℤ × ℤ → K → Option K
  install_fds (fd0, fd1, fd2) k = elim (install_one fd0 (pos 0) k) [
    | none ↦ none
    | some k0 ↦ elim (install_one fd1 (pos 1) k0) [
      | none ↦ none
      | some k1 ↦ install_one fd2 (pos 2) k1
    ]
  ]

  module _ (body : ℕ → World × K → World × K) (is_dead : ℕ → World × K → Bool) where
    -- `self.current = Some(next_pid)` up to `self.current = None`.
    unfoldable pub run_one : VPid → World × K → World × K
    unfolding switch_to
    run_one pid (w, k) =
        let ex = switch_to pid w.executor in
        elim (lookup pid ex.vprocs) [
          | none ↦ (record w { executor = record ex { current = none } }, k)
          | some c ↦
              let started : World = record w {
                executor = record ex { vprocs = modify pid start_running ex.vprocs };
              } in
              let (w', k') = body c.co (started, k) in
              let ex' = w'.executor in
              let dead = is_dead c.co (w', k') in
              let ended : Executor = record ex' {
                vprocs = modify pid (stop_running dead) ex'.vprocs;
                current = none;
              } in
              (record w' { executor = ended }, k')
        ]

    -- `none` where the driver aborts.
    unfoldable pub step_from_driver_with_fd_swap : ℤ × ℤ × ℤ → World × K → Option (World × K)
    unfolding run_one
    step_from_driver_with_fd_swap saved_fds (w, k) =
        let (next, ex) = pick_next w.executor in
        elim next [
          | none ↦ some (record w { executor = ex }, k)
          | some pid ↦
              let (killed, ex') = deliver_signals ex pid in
              let ready : World = record w { executor = ex' } in
              elim (get_real_fds w.fds pid) [
                | none ↦ some (run_one pid (ready, k))
                | some real_fds ↦ elim (install_fds real_fds k) [
                  | none ↦ none
                  | some swapped ↦
                      let (w', k') = run_one pid (ready, swapped) in
                      elim (install_fds saved_fds k') [
                        | none ↦ none
                        | some restored ↦ some (w', restored)
                      ]
                ]
              ]
        ]
