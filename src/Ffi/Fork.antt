-- ===== src/Ffi/Fork.antt =====
-- `vproc_ffi_fork` of src/ffi.rs: the part before it yields and the part after. The link register is
-- an argument of both, since other coroutines run in between.
pub mod Twice
use vproc.Prelude.{ℕ, Bool, true, false, Option, none, some, if◌then◌else◌}
use vproc.Prelude.Assoc.{lookup, modify}
use vproc.Coroutine.{VPid, Coroutine}
use vproc.Executor.{Executor, spawn_front}

-- `ex.vprocs.get_mut(&pid).unwrap().is_fork_child = false`
abbrev pub clear_flag : VPid → Executor → Executor
clear_flag pid ex = record ex {
  vprocs = modify pid (λ c. record c { is_fork_child = false }) ex.vprocs;
}

-- The call returns, yields, or panics at an `unwrap`.
pub data Entered : Type 0 where
  returns : ℕ → Executor → Entered
  yields : Executor → Entered
  panics : Entered

-- Phases 1 and 2. `helper` is the closure that calls `spawn_fork_child`, and `co` its coroutine.
unfoldable pub fork_enter : ℕ → ℕ → ℕ → Executor → Entered
unfolding spawn_front
fork_enter lr co helper ex = elim ex.current [
  | none ↦ panics
  | some pid ↦ elim (lookup pid ex.vprocs) [
    | none ↦ panics
    | some c ↦
        let saved : Executor = record ex { saved_fork_lr = some lr } in
        if c.is_fork_child
        then returns 0 (clear_flag pid ex)
        else yields (spawn_front saved co helper).1
  ]
]

-- `take` of the saved link register: the register afterwards.
abbrev pub restored_lr : Option ℕ → ℕ → ℕ
restored_lr none lr = lr
restored_lr (some saved) lr = saved

-- Phase 3: what the call returns, the link register, and the executor. `none` is a panic.
unfoldable pub fork_resume : ℕ → Executor → Option (ℕ × ℕ × Executor)
fork_resume current_lr ex =
    let lr = restored_lr ex.saved_fork_lr current_lr in
    let taken : Executor = record ex { saved_fork_lr = none } in
    elim taken.current [
      | none ↦ none
      | some pid ↦ elim (lookup pid taken.vprocs) [
        | none ↦ none
        | some c ↦
            if c.is_fork_child
            then some (0, lr, clear_flag pid taken)
            else some (c.fork_child_pid, lr, taken)
      ]
    ]
