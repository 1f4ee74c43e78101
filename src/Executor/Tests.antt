-- ===== src/Executor/Tests.antt =====
-- The theorems on src/executor.rs at concrete executors.
use vproc.Prelude.{
  ◌+◌, ℕ, ◌≡◌, refl, List, [], ◌∷◌, Bool, true, false, none, some, arith, if◌then◌else◌, Option,
}
use vproc.Prelude.Int.{ℤ, pos, negsuc, ◌==ℤ◌}
use vproc.Prelude.Assoc.{lookup}
use vproc.Prelude.Assoc.Distinct.{Distinct}
use vproc.Coroutine
use vproc.Coroutine.{Coroutine, State, is_done, set_done}
use vproc.Executor
use vproc.Executor.{
  Executor, spawn, spawn_front, spawn_elf, spawn_fork_child, is_live, pick_next, deliver_signals,
  exit_code_of, first_fatal,
}
use vproc.Executor.Queue.{Picks, pick_next-Picks}
use vproc.Executor.Pids.{IsValid, new-IsValid, Spawned, spawn-Spawned}
use vproc.Executor.Step.{World, step_from_driver, do_yield}
use vproc.Executor.Step.Killed.{step_from_driver_revives}
use vproc.Executor.Step.Swap.{install_fds, install_one}
use vproc.Executor.Step.Swap.Installs.{install_fds_lem}
use vproc.Executor.Step.Turns.{turns, rounds}
use vproc.Executor.Io.{PollFd}
use vproc.Vfd.Tables.{FdTables}

abbrev no_fds : FdTables
no_fds = record { tables = []; pipes = [] }

abbrev sleeper : Coroutine
sleeper = Coroutine.new 1 100 7

-- SIGUSR1, SIGTERM and SIGKILL are pending.
abbrev victim : Coroutine
victim = record (Coroutine.new 2 101 8) { pending_signals = pos 10 ∷ pos 15 ∷ pos 9 ∷ [] }

-- A process that waits for descriptor 5 until 1000.
abbrev reader : Coroutine
reader = record (Coroutine.new 3 102 9) {
  io_wait = some (record { fds = (pos 5, 1) ∷ []; deadline = some 1000 });
}

abbrev finished : Coroutine
finished = record (Coroutine.new 4 103 9) { state = State.done; exit_code = pos 137 }

abbrev sample : Executor
sample = record Executor.new {
  vprocs = (1, sleeper) ∷ (2, victim) ∷ (3, reader) ∷ (4, finished) ∷ [];
  ready_queue = 4 ∷ 2 ∷ 1 ∷ [];
  next_pid = 5;
  current = some 1;
}

sample-Distinct : Distinct sample.vprocs
unfolding lookup
sample-Distinct = (refl, (refl, (refl, (refl, tt))))

spawn-Spawned_example :
    let ex = Executor.new in
    Spawned ex (Coroutine.new 1 100 7) (spawn ex 100 7)
    × Spawned ex (Coroutine.new 1 100 7) (spawn_front ex 100 7)
    × Spawned ex (Coroutine.new_elf 1 100 4096 8192) (spawn_elf ex 100 4096 8192)
unfolding Executor.new
spawn-Spawned_example = spawn-Spawned Executor.new 100 7 4096 8192 new-IsValid (omega arith)

-- Two processes in a fresh executor, both ready.
abbrev two : Executor
two = record Executor.new {
  vprocs = (1, sleeper) ∷ (2, Coroutine.new 2 101 8) ∷ [];
  ready_queue = 1 ∷ 2 ∷ [];
  next_pid = 3;
}

two-IsValid : IsValid two
unfolding lookup Executor.new
two-IsValid = record {
  distinct = (refl, (refl, tt));
  unused = λ pid h. ground arith;
  uncoded = λ pid h. refl;
  running = λ pid h. cc;
}

pick_next-Picks_example :
    let (pid, ex') = pick_next sample in
    Picks sample sample.ready_queue (pid, ex'.ready_queue)
    × (ex' ≡ record sample { ready_queue = ex'.ready_queue })
pick_next-Picks_example = pick_next-Picks sample

-- Every coroutine yields.
abbrev yielding : ℕ → World → World
yielding co v = do_yield (λ co v. v) (λ co v. false) true v

abbrev never_dead : ℕ → World → Bool
never_dead co v = false

abbrev at_once : ℕ → World → World
at_once co v = v

abbrev sample_world : World
sample_world = record { executor = sample; fds = no_fds }

step_from_driver_revives_example :
    lookup 2 (step_from_driver at_once never_dead sample_world).executor.vprocs
    ≡ some (record (set_done (record victim { pending_signals = [] }) (pos 143)) {
      state = State.ready;
    })
unfolding lookup pick_next first_fatal is_live is_done Coroutine.new
step_from_driver_revives_example =
    step_from_driver_revives at_once never_dead sample_world 2 victim (pos 15) refl refl refl
      (λ v. refl) (λ v. refl)

abbrev two_world : World
two_world = record { executor = two; fds = no_fds }

rounds_example : (turns yielding never_dead 1 two_world).executor.ready_queue ≡ 2 ∷ 1 ∷ []
unfolding lookup is_done Coroutine.new do_yield
rounds_example =
    rounds yielding never_dead (λ co v. refl) (λ co v. refl) (1 ∷ []) (2 ∷ []) two_world refl
      ((sleeper, refl, refl, refl), ((Coroutine.new 2 101 8, refl, refl, refl), tt))

-- Descriptor 5 has an event for process 3.
abbrev polled : List (PollFd × ℕ)
polled = (record { fd = pos 5; events = 1; revents = 1 }, 3) ∷ []

-- Descriptors of the kernel by the open file behind them, and `dup3` on them.
abbrev Files : Type 0
Files = ℤ → Option ℕ

abbrev assign : ℤ → ℤ → Files → ℤ × Files
assign old_fd new_fd files =
    (new_fd, λ other. if new_fd ==ℤ other then files old_fd else files other)

abbrev open_files : Files
open_files (pos n) = some n
open_files (negsuc n) = none

abbrev installed : Files
installed other =
    if pos 1 ==ℤ other then some 5 else (if pos 0 ==ℤ other then some 5 else open_files other)

-- Standard input 5 and standard output 0: the output goes to the open file of the input.
install_fds_lem_example :
    let second : ℤ = pos 5 in
    let third : ℤ = pos 2 in
    (installed (pos 0) ≡ open_files (pos 5))
    × (installed (pos 1) ≡ open_files second)
    × (installed (pos 2) ≡ open_files third)
    × ((n : ℕ) → installed (pos (3 + n)) ≡ open_files (pos (3 + n)))
unfolding install_fds install_one
install_fds_lem_example =
    install_fds_lem assign (λ fd k. k fd) (λ old_fd new_fd k success other. refl) (pos 5) (pos 0)
      (pos 2) open_files installed refl refl refl refl
