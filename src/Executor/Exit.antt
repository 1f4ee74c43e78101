-- ===== src/Executor/Exit.antt =====
-- Exit codes and the parent's list of children in src/executor.rs. A null executor pointer is
-- `none`.
pub mod Codes
use vproc.Prelude.{
  ℕ, List, Bool, true, false, Option, none, some, ◌==◌, if◌then◌else◌, retain, contains, not,
}
use vproc.Prelude.Int.{ℤ, pos}
use vproc.Prelude.Assoc.{lookup, insert, remove, modify}
use vproc.Coroutine.{VPid, Coroutine, State, is_done}
use vproc.Executor.{Executor}

-- Up to the `mco_yield` that gives control back to the scheduler, when a coroutine runs.
unfoldable pub vproc_exit_with_code : Executor → ℤ → Executor
vproc_exit_with_code ex code = elim ex.current [
  | none ↦ ex
  | some pid ↦ record ex {
    vprocs = modify pid (λ c. record c { state = State.done; exit_code = code }) ex.vprocs;
    exit_codes = insert pid code ex.exit_codes;
  }
]

unfoldable pub vproc_exit : Executor → Executor
unfolding vproc_exit_with_code
vproc_exit ex = vproc_exit_with_code ex (pos 0)

-- `if co.is_done() { Some(co.exit_code) } else { None }`
unfoldable pub code_of : Coroutine → Option ℤ
unfolding is_done
code_of c = if is_done c then some c.exit_code else none

unfoldable pub get_exit_code : Executor → VPid → Option ℤ
unfolding code_of
get_exit_code ex pid = elim (lookup pid ex.exit_codes) [
  | some code ↦ some code
  | none ↦ elim (lookup pid ex.vprocs) [ none ↦ none | some c ↦ code_of c ]
]

unfoldable pub is_child_of : Executor → VPid → VPid → Bool
is_child_of ex parent child = elim (lookup parent ex.children) [
  | none ↦ false
  | some kids ↦ contains child kids
]

unfoldable pub reap_child : Executor → VPid → VPid → Executor
reap_child ex parent child = record ex {
  children = modify parent (λ kids. retain (λ k. not (k == child)) kids) ex.children;
}

unfoldable pub remove_exit_code : Executor → VPid → Executor
remove_exit_code ex pid = record ex { exit_codes = remove pid ex.exit_codes }
