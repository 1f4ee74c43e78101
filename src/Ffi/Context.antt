-- ===== src/Ffi/Context.antt =====
-- The functions of src/ffi.rs that act on the running process, and the reading of a C array of
-- strings in src/lib.rs. A null executor pointer acts as an executor without processes, and a string
-- is its bytes.
use vproc.Prelude.{ℕ, List, [], ◌∷◌, Bool, Option, none, some, if◌then◌else◌}
use vproc.Prelude.Int.{ℤ, pos, minus_one}
use vproc.Prelude.Assoc.{lookup}
use vproc.Coroutine.{VPid}
use vproc.Executor.{Executor}
use vproc.Executor.Exit.{vproc_exit_with_code, get_exit_code}
use vproc.Executor.Step.{World}

-- The pointers of the array up to its null one, `none`, with the strings behind them. A null `arr` is
-- the outer `none`.
unfoldable pub strings_until_null : List (Option (List ℕ)) → List (List ℕ)
strings_until_null [] = []
strings_until_null (none ∷ pointers) = []
strings_until_null (some s ∷ pointers) = s ∷ strings_until_null pointers

unfoldable pub c_array_to_vec : Option (List (Option (List ℕ))) → List (List ℕ)
unfolding strings_until_null
c_array_to_vec none = []
c_array_to_vec (some pointers) = strings_until_null pointers

unfoldable pub vproc_ffi_current_vpid : Executor → VPid
vproc_ffi_current_vpid ex = elim ex.current [ none ↦ 0 | some pid ↦ pid ]

-- `real` is what the C library returns.
unfoldable pub vproc_ffi_getpid : Executor → VPid → VPid
vproc_ffi_getpid ex real = elim ex.current [ none ↦ real | some pid ↦ pid ]

unfoldable pub vproc_ffi_getppid : Executor → VPid → VPid
vproc_ffi_getppid ex real = elim ex.current [
  | none ↦ real
  | some pid ↦ elim (lookup pid ex.vprocs) [ none ↦ 0 | some co ↦ co.ppid ]
]

unfoldable pub vproc_ffi_get_exit_code : Executor → VPid → ℤ
vproc_ffi_get_exit_code ex vpid = elim (get_exit_code ex vpid) [
  | none ↦ minus_one
  | some code ↦ code
]

-- How `vproc_ffi_exit` ends: the scheduler goes on with another process, or the whole thread group
-- ends by the system call.
pub data Ending : Type 0 where
  switches : Executor → Ending
  exit_group : ℤ → Ending

unfoldable pub vproc_ffi_exit : Executor → ℤ → Ending
vproc_ffi_exit ex code = elim ex.current [
  | none ↦ exit_group code
  | some pid ↦ switches (vproc_exit_with_code ex code)
]

abbrev pub enoexec : ℕ
enoexec = 8

-- `virtual_execve` of src/vexec.rs is the argument `run`, which says whether it is `Ok`. The result is
-- `none` where control does not come back; beside it stand `errno` and the state.
unfoldable pub vproc_ffi_execve :
    (List ℕ → List (List ℕ) → List (List ℕ) → World → Bool × World)
    → List ℕ
    → Option (List (Option (List ℕ)))
    → Option (List (Option (List ℕ)))
    → ℕ
    → World
    → Option ℤ × ℕ × World
unfolding c_array_to_vec vproc_exit_with_code
vproc_ffi_execve run path argv envp errno w =
    let (is_ok, w') = run path (c_array_to_vec argv) (c_array_to_vec envp) w in
    let left : Option ℤ = elim w'.executor.current [ none ↦ some minus_one | some pid ↦ none ] in
    if is_ok
    then (left, errno, record w' { executor = vproc_exit_with_code w'.executor (pos 0) })
    else (some minus_one, enoexec, w')
