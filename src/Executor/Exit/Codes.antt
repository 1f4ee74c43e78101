-- ===== src/Executor/Exit/Codes.antt =====
-- Exit codes: what `vproc_exit_with_code` records and `get_exit_code` finds.
use vproc.Prelude.{
  ◌≡◌, refl, List, [], ◌∷◌, true, ◌&&◌, not, some, arith, ◌==◌, if◌then◌else◌, contains, retain,
  Option-cases, inl, inr,
}
use vproc.Prelude.Int.{ℤ}
use vproc.Prelude.Assoc.{lookup, lookup-insert, lookup-modify}
use vproc.Coroutine.{VPid, Coroutine, State, is_done}
use vproc.Executor.{Executor}
use vproc.Executor.Exit.{vproc_exit_with_code, get_exit_code, is_child_of, reap_child}

-- After the running process exits with a code, that is its exit code, and every other process has
-- the exit code that it had, if any.
pub get_exit_code-exit :
    (ex : Executor) (pid other : VPid) (code : ℤ)
    → ex.current ≡ some pid
    → get_exit_code (vproc_exit_with_code ex code) other
      ≡ (if pid == other then some code else get_exit_code ex other)
unfolding vproc_exit_with_code get_exit_code
get_exit_code-exit ex pid other code h =
    let end = λ (c : Coroutine). record c { state = State.done; exit_code = code } in
    ground
      (arith, lookup-insert pid other code ex.exit_codes, lookup-modify pid other end ex.vprocs)

-- An exited process is not resumed any more: it is done.
pub exit-is_done :
    (ex : Executor) (pid : VPid) (c : Coroutine) (code : ℤ)
    → ex.current ≡ some pid
    → lookup pid ex.vprocs ≡ some c
    → (c' : Coroutine) × (lookup pid (vproc_exit_with_code ex code).vprocs ≡ some c')
      × (is_done c' ≡ true)
      × (c'.exit_code ≡ code)
unfolding vproc_exit_with_code is_done
exit-is_done ex pid c code h e =
    let end = λ (c : Coroutine). record c { state = State.done; exit_code = code } in
    (end c, ground (arith, lookup-modify pid pid end ex.vprocs), refl, refl)

contains-retain_ne :
    (k child : VPid) (kids : List VPid)
    → contains k (retain (λ j. not (j == child)) kids) ≡ contains k kids && not (child == k)
contains-retain_ne k child [] = ground arith
contains-retain_ne k child (j ∷ kids) = ground (arith, contains-retain_ne k child kids)

-- `reap_child` takes that child from that parent, and no other.
pub is_child_of-reap_child :
    (ex : Executor) (parent child p k : VPid)
    → is_child_of (reap_child ex parent child) p k
      ≡ is_child_of ex p k && not ((parent == p) && (child == k))
unfolding is_child_of reap_child
is_child_of-reap_child ex parent child p k =
    let shrink = λ (kids : List VPid). retain (λ j. not (j == child)) kids in
    elim (Option-cases (lookup p ex.children)) [
      | inl absent ↦ ground (arith, lookup-modify parent p shrink ex.children)
      | inr (kids, h) ↦
          ground (arith, lookup-modify parent p shrink ex.children, contains-retain_ne k child kids)
    ]
