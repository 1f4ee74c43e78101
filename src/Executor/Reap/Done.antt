-- ===== src/Executor/Reap/Done.antt =====
-- What is left after `reap_done_coroutines`.
use vproc.Prelude.{
  ◌≡◌, refl, [], ◌∷◌, Bool, true, false, Option, none, some, arith, ◌==◌, if◌then◌else◌,
}
use vproc.Prelude.Assoc.{Assoc, lookup, lookup-remove}
use vproc.Prelude.Assoc.Distinct.{Distinct}
use vproc.Coroutine.{VPid, Coroutine, is_done}
use vproc.Executor.{Executor, is_live}
use vproc.Executor.Exit.{get_exit_code}
use vproc.Executor.Reap.{retain_vprocs, reap_done_coroutines}
use vproc.Vfd.Tables.{FdTables, get_table, remove_table_and_get_fds}

live : Option Coroutine → Option Coroutine
live none = none
live (some c) = if is_done c then none else some c

retain_vprocs_reads :
    (vprocs : Assoc Coroutine) (fds : FdTables) (pid : VPid)
    → Distinct vprocs
    → lookup pid (retain_vprocs vprocs fds).0 ≡ live (lookup pid vprocs)
unfolding retain_vprocs lookup live
retain_vprocs_reads [] fds pid d = refl
retain_vprocs_reads ((k, c) ∷ vprocs) fds pid d =
    let fds' = (remove_table_and_get_fds fds k).1 in
    ground (arith, retain_vprocs_reads vprocs (if is_done c then fds' else fds) pid d.1, d.0)

-- `reap_done_coroutines` removes the processes that are done and keeps the others as they were.
pub reap_vprocs :
    (ex : Executor) (fds : FdTables) (pid : VPid)
    → Distinct ex.vprocs
    → lookup pid (reap_done_coroutines ex fds).0.vprocs
      ≡ (if is_live ex pid then lookup pid ex.vprocs else none)
unfolding reap_done_coroutines is_live live
reap_vprocs ex fds pid d = ground (arith, retain_vprocs_reads ex.vprocs fds pid d)

-- After reaping, the exit codes that can be asked for are exactly the recorded ones: a process
-- that became done without `vproc_exit_with_code`, as by a signal, has no exit code any more.
pub get_exit_code-reap :
    (ex : Executor) (fds : FdTables) (pid : VPid)
    → Distinct ex.vprocs
    → get_exit_code (reap_done_coroutines ex fds).0 pid ≡ lookup pid ex.exit_codes
unfolding get_exit_code reap_done_coroutines live
get_exit_code-reap ex fds pid d = ground (arith, retain_vprocs_reads ex.vprocs fds pid d)

-- Whether the process is there and done.
is_finished : Option Coroutine → Bool
is_finished none = false
is_finished (some c) = is_done c

remove_table_and_get_fds_reads :
    (fds : FdTables) (pid q : VPid)
    → get_table (remove_table_and_get_fds fds pid).1 q
      ≡ (if pid == q then none else get_table fds q)
unfolding remove_table_and_get_fds get_table
remove_table_and_get_fds_reads fds pid q = ground (arith, lookup-remove pid q fds.tables)

retain_vprocs_tables :
    (vprocs : Assoc Coroutine) (fds : FdTables) (q : VPid)
    → Distinct vprocs
    → get_table (retain_vprocs vprocs fds).1 q
      ≡ (if is_finished (lookup q vprocs) then none else get_table fds q)
unfolding retain_vprocs lookup is_finished
retain_vprocs_tables [] fds q d = refl
retain_vprocs_tables ((k, c) ∷ vprocs) fds q d =
    let fds' = (remove_table_and_get_fds fds k).1 in
    ground (
      arith,
      retain_vprocs_tables vprocs fds q d.1,
      retain_vprocs_tables vprocs fds' q d.1,
      remove_table_and_get_fds_reads fds k q,
      d.0,
    )

-- `reap_done_coroutines` removes the descriptor tables of the processes that are done, and no
-- other table changes.
pub reap_tables :
    (ex : Executor) (fds : FdTables) (pid : VPid)
    → Distinct ex.vprocs
    → let fds' = (reap_done_coroutines ex fds).1 in
      ((c : Coroutine)
        → lookup pid ex.vprocs ≡ some c
        → is_done c ≡ true
        → get_table fds' pid ≡ none)
      × (is_live ex pid ≡ true → get_table fds' pid ≡ get_table fds pid)
unfolding reap_done_coroutines is_live is_finished
reap_tables ex fds pid d = (
  λ c h e. ground (arith, retain_vprocs_tables ex.vprocs fds pid d),
  λ e. ground (arith, retain_vprocs_tables ex.vprocs fds pid d),
)
