-- ===== src/Ffi/Fork/Twice.antt =====
-- A call of `vproc_ffi_fork` from its entry to its two returns, by way of the helper.
use vproc.Prelude.{ℕ, ◌≡◌, ◌≢◌, false, Option, none, some, arith}
use vproc.Prelude.Assoc.{lookup, insert, lookup-insert, lookup-modify}
use vproc.Coroutine
use vproc.Coroutine.{VPid, Coroutine, fork_from}
use vproc.Executor.{Executor, spawn_front, spawn_fork_child, forked, next_pid_after}
use vproc.Vfd.Tables.{FdTables}
use vproc.Ffi.Fork.{yields, fork_enter, fork_resume}

-- What a call returns and the link register it returns with.
unfoldable pub returned : Option (ℕ × ℕ × Executor) → Option (ℕ × ℕ)
returned none = none
returned (some (value, lr, ex)) = some (value, lr)

-- The entry of a call that yields has saved the link register, keeps the caller's record, and has
-- taken one number, for the helper.
entered_state :
    (ex ex1 : Executor) (parent : VPid) (c : Coroutine) (lr co helper : ℕ)
    → ex.current ≡ some parent
    → lookup parent ex.vprocs ≡ some c
    → parent ≢ ex.next_pid
    → fork_enter lr co helper ex ≡ yields ex1
    → (c.is_fork_child ≡ false)
      × (lookup parent ex1.vprocs ≡ some c)
      × (ex1.saved_fork_lr ≡ some lr)
      × (ex1.next_pid ≡ next_pid_after ex.next_pid)
unfolding fork_enter spawn_front
entered_state ex ex1 parent c lr co helper cur found not_helper entered = ground (
  arith,
  cur,
  found,
  entered,
  lookup-insert ex.next_pid parent (Coroutine.new ex.next_pid co helper) ex.vprocs,
)

-- The helper makes the child, gives its number to the parent, and leaves the saved register.
helper_state :
    (ex1 ex2 : Executor) (fds fds' : FdTables) (parent child : VPid) (c : Coroutine) (child_co : ℕ)
    → lookup parent ex1.vprocs ≡ some c
    → parent ≢ ex1.next_pid
    → spawn_fork_child ex1 fds parent child_co ≡ some (child, ex2, fds')
    → (child ≡ ex1.next_pid)
      × (lookup parent ex2.vprocs ≡ some (record c { fork_child_pid = child }))
      × (lookup child ex2.vprocs ≡ some (fork_from child c child_co))
      × (ex2.saved_fork_lr ≡ ex1.saved_fork_lr)
unfolding spawn_fork_child forked
helper_state ex1 ex2 fds fds' parent child c child_co found not_child made =
    let vprocs = insert ex1.next_pid (fork_from ex1.next_pid c child_co) ex1.vprocs in
    let given : Coroutine → Coroutine = λ co. record co { fork_child_pid = ex1.next_pid } in
    ground (
      arith,
      found,
      made,
      lookup-insert ex1.next_pid parent (fork_from ex1.next_pid c child_co) ex1.vprocs,
      lookup-insert ex1.next_pid ex1.next_pid (fork_from ex1.next_pid c child_co) ex1.vprocs,
      lookup-modify parent parent given vprocs,
      lookup-modify parent ex1.next_pid given vprocs,
    )

-- What a second process returns that resumes when a first has returned, with the link register `lr'`.
unfoldable pub resumed_next : Option (ℕ × ℕ × Executor) → VPid → ℕ → Option (ℕ × ℕ)
unfolding fork_resume returned
resumed_next none pid lr' = none
resumed_next (some (value, lr, ex)) pid lr' =
    returned (fork_resume lr' (record ex { current = some pid }))

-- A fork returns twice: once the helper has run, the parent and the child resume one after the other, in
-- either order, and the parent returns with the number of the child, the child with 0. The first of the
-- two has the link register that the parent entered with, whatever it held before; the second has
-- the one that it holds itself, since the saved one has been taken. The two numbers differ.
pub fork_returns_twice :
    (ex ex1 ex2 : Executor) (fds fds' : FdTables) (parent child : VPid) (c : Coroutine)
    (lr lr' lr'' co helper child_co : ℕ)
    → ex.current ≡ some parent
    → lookup parent ex.vprocs ≡ some c
    → parent ≢ ex.next_pid
    → parent ≢ next_pid_after ex.next_pid
    → fork_enter lr co helper ex ≡ yields ex1
    → spawn_fork_child ex1 fds parent child_co ≡ some (child, ex2, fds')
    → let parent_first = fork_resume lr' (record ex2 { current = some parent }) in
      let child_first = fork_resume lr' (record ex2 { current = some child }) in
      (returned parent_first ≡ some (child, lr))
      × (resumed_next parent_first child lr'' ≡ some (0, lr''))
      × (returned child_first ≡ some (0, lr))
      × (resumed_next child_first parent lr'' ≡ some (child, lr''))
      × (child ≢ parent)
unfolding fork_resume returned fork_from resumed_next
fork_returns_twice ex ex1 ex2 fds fds' parent child c lr lr' lr'' co helper child_co cur found
      not_helper not_child entered made =
    let (plain, held, saved, next) =
      entered_state ex ex1 parent c lr co helper cur found not_helper entered in
    let (is_next, at_parent, at_child, same) =
      helper_state ex1 ex2 fds fds' parent child c child_co held (ground arith) made in
    let differ : child ≢ parent = ground arith in
    let lower : Coroutine → Coroutine = λ co. record co { is_fork_child = false } in
    ground (arith, differ, lookup-modify child parent lower ex2.vprocs)
