-- ===== src/Executor/Reap.antt =====
-- `reap_done_coroutines` of src/executor.rs. The descriptors that it closes are returned beside the
-- new states.
pub mod Done
use vproc.Prelude.{
  ℕ, List, [], ◌∷◌, ◌++◌, Bool, true, false, Option, none, some, if◌then◌else◌, retain, not, map,
}
use vproc.Prelude.Int.{ℤ}
use vproc.Prelude.Assoc.{Assoc, lookup, remove, contains_key}
use vproc.Coroutine.{VPid, Coroutine, is_done}
use vproc.Executor.{Executor}
use vproc.Vfd.Tables.{FdTables, remove_table_and_get_fds}

unfoldable pub done_pids : Assoc Coroutine → List VPid
unfolding is_done
done_pids vprocs = map (λ e. e.0) (retain (λ e. is_done e.1) vprocs)

-- `self.children.remove(pid)` for each.
unfoldable pub remove_children : List VPid → Assoc (List VPid) → Assoc (List VPid)
remove_children [] children = children
remove_children (pid ∷ pids) children = remove_children pids (remove pid children)

abbrev pub is_nonempty {ℓ} : {A : Type ℓ} → List A → Bool
is_nonempty [] = false
is_nonempty (x ∷ xs) = true

-- `self.children.retain`: forgets children that are not there, and parents left without one.
unfoldable pub retain_children : Assoc Coroutine → Assoc (List VPid) → Assoc (List VPid)
retain_children vprocs [] = []
retain_children vprocs ((parent, kids) ∷ children) =
    let kids' = retain (λ k. contains_key k vprocs) kids in
    let rest = retain_children vprocs children in
    if is_nonempty kids' then (parent, kids') ∷ rest else rest

-- `self.vprocs.retain`: the processes kept, the table storage, and the descriptors closed.
unfoldable pub retain_vprocs : Assoc Coroutine → FdTables → Assoc Coroutine × FdTables × List ℤ
unfolding is_done
retain_vprocs [] fds = ([], fds, [])
retain_vprocs ((pid, c) ∷ vprocs) fds =
    let (real_fds, fds') = remove_table_and_get_fds fds pid in
    let (rest, end, closed) = retain_vprocs vprocs (if is_done c then fds' else fds) in
    if is_done c then (rest, end, real_fds ++ closed) else ((pid, c) ∷ rest, end, closed)

unfoldable pub reap_done_coroutines : Executor → FdTables → Executor × FdTables × List ℤ
unfolding done_pids remove_children retain_children retain_vprocs
reap_done_coroutines ex fds =
    let (vprocs, fds', closed) = retain_vprocs ex.vprocs fds in
    (
      record ex {
        vprocs = vprocs;
        children = retain_children ex.vprocs (remove_children (done_pids ex.vprocs) ex.children);
      },
      fds',
      closed,
    )
