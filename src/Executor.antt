-- ===== src/Executor.antt =====
-- src/executor.rs: the executor of a session. Its thread-local pointer is the state that the
-- definitions take and return; a null pointer is the caller's `none`.
pub mod Queue
pub mod Signals
pub mod Pids
pub mod Step
pub mod Exit
pub mod Io
pub mod Reap
mod Tests
use vproc.Prelude.{
  ℕ, ◌+◌, ◌%◌, ◌^◌, List, [], ◌∷◌, ◌++◌, Bool, true, false, Option, none, some, ◌==◌, if◌then◌else◌,
  retain, contains, not,
}
use vproc.Prelude.Int.{ℤ, pos, negsuc, ◌==ℤ◌}
use vproc.Prelude.Assoc.{Assoc, lookup, insert, remove, modify, contains_key}
use vproc.Coroutine
use vproc.Coroutine.{VPid, Coroutine, State, is_done, set_done}
use vproc.Vfd.Tables.{FdTables, fork_fd_table}

pub record Executor : Type 0 where
  pub vprocs : Assoc Coroutine
  pub ready_queue : List VPid
  pub next_pid : VPid
  pub current : Option VPid
  pub switch_count : ℕ
  pub children : Assoc (List VPid)
  pub saved_fork_lr : Option ℕ
  pub exit_codes : Assoc ℤ

unfoldable pub new : Executor
new = record {
  vprocs = [];
  ready_queue = [];
  next_pid = 1;
  current = none;
  switch_count = 0;
  children = [];
  saved_fork_lr = none;
  exit_codes = [];
}

-- `self.next_pid += 1`
abbrev pub next_pid_after : VPid → VPid
next_pid_after pid = (pid + 1) % 2 ^ 32

-- `mco_create` makes the coroutine `co` for the closure `f`.
unfoldable pub spawn : Executor → ℕ → ℕ → VPid × Executor
spawn ex co f =
    let pid = ex.next_pid in
    (
      pid,
      record ex {
        next_pid = next_pid_after pid;
        vprocs = insert pid (Coroutine.new pid co f) ex.vprocs;
        ready_queue = ex.ready_queue ++ pid ∷ [];
      },
    )

unfoldable pub spawn_front : Executor → ℕ → ℕ → VPid × Executor
spawn_front ex co f =
    let pid = ex.next_pid in
    (
      pid,
      record ex {
        next_pid = next_pid_after pid;
        vprocs = insert pid (Coroutine.new pid co f) ex.vprocs;
        ready_queue = pid ∷ ex.ready_queue;
      },
    )

unfoldable pub spawn_elf : Executor → ℕ → ℕ → ℕ → VPid × Executor
spawn_elf ex co stack_base stack_size =
    let pid = ex.next_pid in
    (
      pid,
      record ex {
        next_pid = next_pid_after pid;
        vprocs = insert pid (Coroutine.new_elf pid co stack_base stack_size) ex.vprocs;
        ready_queue = ex.ready_queue ++ pid ∷ [];
      },
    )

unfoldable pub register_c_strings : Executor → VPid → List ℕ → Executor
register_c_strings ex vpid strings = record ex {
  vprocs = modify vpid (λ c. record c { c_strings = strings }) ex.vprocs;
}

unfoldable pub register_mapped_region : Executor → VPid → ℕ → ℕ → Executor
register_mapped_region ex vpid base size = record ex {
  vprocs =
      modify vpid (λ c. record c { mapped_regions = c.mapped_regions ++ (base, size) ∷ [] })
        ex.vprocs;
}

-- The executor after `spawn_fork_child`, for the parent that it found. The new child stands at the
-- end of `children.entry(parent_pid).or_default()`.
unfoldable pub forked : Executor → VPid → Coroutine → ℕ → Executor
forked ex parent_pid parent co =
    let child_id = ex.next_pid in
    let child = Coroutine.fork_from child_id parent co in
    let siblings : List VPid = elim (lookup parent_pid ex.children) [
      | none ↦ []
      | some kids ↦ kids
    ] in
    record ex {
      next_pid = next_pid_after child_id;
      vprocs =
          modify parent_pid (λ c. record c { fork_child_pid = child_id })
            (insert child_id child ex.vprocs);
      ready_queue = ex.ready_queue ++ child_id ∷ [];
      children = insert parent_pid (siblings ++ child_id ∷ []) ex.children;
    }

-- `none` is the panic of `unwrap` where the parent is not there.
unfoldable pub spawn_fork_child :
    Executor → FdTables → VPid → ℕ → Option (VPid × Executor × FdTables)
unfolding forked
spawn_fork_child ex fds parent_pid co = elim (lookup parent_pid ex.vprocs) [
  | none ↦ none
  | some parent ↦
      some (ex.next_pid, forked ex parent_pid parent co, fork_fd_table fds parent_pid ex.next_pid)
]

unfoldable pub is_live : Executor → VPid → Bool
unfolding is_done
is_live ex pid = elim (lookup pid ex.vprocs) [ none ↦ false | some c ↦ not (is_done c) ]

-- The loop of `pick_next`: the first entry whose coroutine is there and not done, and the rest.
unfoldable pub pick_from : Executor → List VPid → Option VPid × List VPid
unfolding is_live
pick_from ex [] = (none, [])
pick_from ex (pid ∷ queue) =
    let later = pick_from ex queue in if is_live ex pid then (some pid, queue) else later

unfoldable pub pick_next : Executor → Option VPid × Executor
unfolding pick_from
pick_next ex =
    let (pid, queue) = pick_from ex ex.ready_queue in (pid, record ex { ready_queue = queue })

-- `libc::SIGKILL | libc::SIGTERM`
unfoldable pub is_fatal : ℤ → Bool
is_fatal sig = if sig ==ℤ pos 9 then true else sig ==ℤ pos 15

-- `128 + sig`, for a fatal `sig`.
abbrev pub exit_code_of : ℤ → ℤ
exit_code_of (pos sig) = pos (128 + sig)
exit_code_of (negsuc n) = negsuc n

-- The loop over the taken signals: the first fatal one.
unfoldable pub first_fatal : List ℤ → Option ℤ
unfolding is_fatal
first_fatal [] = none
first_fatal (sig ∷ signals) =
    let later = first_fatal signals in if is_fatal sig then some sig else later

-- `mem::take` of the signals, and `set_done` at a fatal one. Taking no signals changes nothing.
unfoldable pub deliver_signals : Executor → VPid → Bool × Executor
unfolding first_fatal set_done
deliver_signals ex pid = elim (lookup pid ex.vprocs) [
  | none ↦ (false, ex)
  | some c ↦
      let taken = modify pid (λ c. record c { pending_signals = [] }) ex.vprocs in
      elim (first_fatal c.pending_signals) [
        | none ↦ (false, record ex { vprocs = taken })
        | some sig ↦
            (true, record ex { vprocs = modify pid (λ c. set_done c (exit_code_of sig)) taken })
      ]
]
