-- ===== src/Executor/Pids.antt =====
-- Process numbers: which the spawns give.
use vproc.Prelude.{ℕ, ◌+◌, ◌^◌, ◌≤◌, ◌<◌, ◌≡◌, ◌≢◌, refl, List, [], ◌∷◌, ◌++◌, none, some, arith}
use vproc.Prelude.Assoc.{Assoc, lookup, insert, lookup-insert, lookup-modify, lookup-modify-none}
use vproc.Prelude.Assoc.Distinct.{Distinct, insert-Distinct, modify-Distinct}
use vproc.Coroutine.{VPid, Coroutine, State}
use vproc.Coroutine
use vproc.Executor.{
  Executor, new, spawn, spawn_front, spawn_elf, forked, spawn_fork_child, next_pid_after,
}
use vproc.Vfd.Tables.{FdTables, fork_fd_table}

-- Every number from `next_pid` on is unused, as a process and in the table of exit codes.
pub record IsValid (ex : Executor) : Type 0 where
  pub distinct : Distinct ex.vprocs
  pub unused : (pid : VPid) → ex.next_pid ≤ pid → lookup pid ex.vprocs ≡ none
  pub uncoded : (pid : VPid) → ex.next_pid ≤ pid → lookup pid ex.exit_codes ≡ none
  pub running : (pid : VPid) → ex.current ≡ some pid → pid < ex.next_pid

pub new-IsValid : IsValid new
unfolding new lookup
new-IsValid = record {
  distinct = tt;
  unused = λ pid h. refl;
  uncoded = λ pid h. refl;
  running = λ pid h. cc;
}

-- What the ways to spawn have in common: a new process `c` under the next number.
abbrev pub Spawned : Executor → Coroutine → VPid × Executor → Type 0
Spawned ex c (pid, ex') =
    (pid ≡ ex.next_pid)
    × (lookup pid ex.vprocs ≡ none)
    × (lookup pid ex'.exit_codes ≡ none)
    × (lookup pid ex'.vprocs ≡ some c)
    × ((other : VPid) → other ≢ pid → lookup other ex'.vprocs ≡ lookup other ex.vprocs)
    × IsValid ex'

-- An executor with a process added under the next number, whatever its ready queue.
grown-IsValid :
    (ex : Executor) (c : Coroutine) (queue : List VPid)
    → IsValid ex
    → ex.next_pid + 1 < 2 ^ 32
    → IsValid (record ex {
      next_pid = next_pid_after ex.next_pid;
      vprocs = insert ex.next_pid c ex.vprocs;
      ready_queue = queue;
    })
grown-IsValid ex c queue v room = record {
  distinct = insert-Distinct ex.next_pid c ex.vprocs v.distinct;
  unused = λ pid h. ground (arith, lookup-insert ex.next_pid pid c ex.vprocs, v.unused pid);
  uncoded = λ pid h. v.uncoded pid (omega arith);
  running = λ pid h. omega (arith, v.running pid h);
}

-- While numbers last, each `spawn`, `spawn_front` and `spawn_elf` returns a number that no process
-- has and no exit code is recorded for, puts the new process there, leaves every other process
-- as it was, and keeps the executor valid.
pub spawn-Spawned :
    (ex : Executor) (co f stack_base stack_size : ℕ)
    → IsValid ex
    → ex.next_pid + 1 < 2 ^ 32
    → Spawned ex (Coroutine.new ex.next_pid co f) (spawn ex co f)
      × Spawned ex (Coroutine.new ex.next_pid co f) (spawn_front ex co f)
      × Spawned ex
          (Coroutine.new_elf ex.next_pid co stack_base stack_size)
          (spawn_elf ex co stack_base stack_size)
unfolding spawn spawn_front spawn_elf
spawn-Spawned ex co f stack_base stack_size v room = (
  spawned (Coroutine.new pid co f) (ex.ready_queue ++ pid ∷ []),
  spawned (Coroutine.new pid co f) (pid ∷ ex.ready_queue),
  spawned (Coroutine.new_elf pid co stack_base stack_size) (ex.ready_queue ++ pid ∷ []),
)
  where
    pid : VPid
    pid = ex.next_pid

    spawned :
        (c : Coroutine) (queue : List VPid)
        → Spawned ex c (
          pid,
          record ex {
            next_pid = next_pid_after pid;
            vprocs = insert pid c ex.vprocs;
            ready_queue = queue;
          },
        )
    spawned c queue = (
      refl,
      v.unused pid (omega arith),
      v.uncoded pid (omega arith),
      ground (arith, lookup-insert pid pid c ex.vprocs),
      λ other ne. ground (arith, lookup-insert pid other c ex.vprocs),
      grown-IsValid ex c queue v room,
    )

module _ (ex : Executor) (parent_pid : VPid) (parent : Coroutine) (co : ℕ) (v : IsValid ex)
    (room : ex.next_pid + 1 < 2 ^ 32) (h : lookup parent_pid ex.vprocs ≡ some parent) where
  abbrev told : Coroutine → Coroutine
  told c = record c { fork_child_pid = ex.next_pid }

  abbrev grown : Assoc Coroutine
  grown = insert ex.next_pid (Coroutine.fork_from ex.next_pid parent co) ex.vprocs

  parent-ne : parent_pid ≢ ex.next_pid
  parent-ne e = absurd (ground (arith, v.unused parent_pid))

  forked-IsValid : IsValid (forked ex parent_pid parent co)
  unfolding forked
  forked-IsValid = record {
    distinct = modify-Distinct parent_pid told grown (
        insert-Distinct ex.next_pid (Coroutine.fork_from ex.next_pid parent co) ex.vprocs
          v.distinct);
    unused = λ pid le. lookup-modify-none parent_pid pid told grown (
        ground (
          arith,
          lookup-insert ex.next_pid pid (Coroutine.fork_from ex.next_pid parent co) ex.vprocs,
          v.unused pid,
        ));
    uncoded = λ pid le. v.uncoded pid (omega arith);
    running = λ pid e. omega (arith, v.running pid e);
  }

  forked_reads :
      let ex' = forked ex parent_pid parent co in
      (lookup ex.next_pid ex'.vprocs ≡ some (Coroutine.fork_from ex.next_pid parent co))
      × (lookup parent_pid ex'.vprocs ≡ some (record parent { fork_child_pid = ex.next_pid }))
  unfolding forked
  forked_reads =
      let child = Coroutine.fork_from ex.next_pid parent co in
      (
        ground (
          arith,
          parent-ne,
          lookup-modify parent_pid ex.next_pid told grown,
          lookup-insert ex.next_pid ex.next_pid child ex.vprocs,
        ),
        ground (
          arith,
          parent-ne,
          lookup-modify parent_pid parent_pid told grown,
          lookup-insert ex.next_pid parent_pid child ex.vprocs,
        ),
      )

-- A fork of a process that is there, while numbers last, gives the child a number that no process
-- had; the child is ready, a fork child with that process as parent and with its working directory,
-- and the parent is told the number. The executor stays valid, and the child's descriptors are a
-- fork of the parent's.
pub spawn_fork_child_lem :
    (ex : Executor) (fds : FdTables) (parent_pid : VPid) (co : ℕ) (parent : Coroutine)
    → IsValid ex
    → ex.next_pid + 1 < 2 ^ 32
    → lookup parent_pid ex.vprocs ≡ some parent
    → (ex' : Executor) × (spawn_fork_child ex fds parent_pid co
        ≡ some (ex.next_pid, ex', fork_fd_table fds parent_pid ex.next_pid))
      × (lookup ex.next_pid ex.vprocs ≡ none)
      × (lookup ex.next_pid ex'.vprocs ≡ some (Coroutine.fork_from ex.next_pid parent co))
      × (lookup parent_pid ex'.vprocs ≡ some (record parent { fork_child_pid = ex.next_pid }))
      × IsValid ex'
unfolding spawn_fork_child
spawn_fork_child_lem ex fds parent_pid co parent v room h =
    let (child_reads, parent_reads) = forked_reads ex parent_pid parent co v room h in
    (
      forked ex parent_pid parent co,
      ground arith,
      v.unused ex.next_pid (omega arith),
      child_reads,
      parent_reads,
      forked-IsValid ex parent_pid parent co v room h,
    )
