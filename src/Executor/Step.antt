-- ===== src/Executor/Step.antt =====
-- The scheduler steps of src/executor.rs. What a coroutine does between `mco_resume` and its next
-- `mco_yield` or its end is the parameter `body`, by the number of its `mco_coro`: any change of
-- the executor and of the table storage. `is_dead` is `mco_status(co) == MCO_DEAD` after it.
pub mod Turns
pub mod Killed
pub mod Swap
use vproc.Prelude.{
  ℕ, ◌+◌, ◌%◌, ◌^◌, List, [], ◌∷◌, ◌++◌, Bool, true, false, Option, none, some, if◌then◌else◌,
}
use vproc.Prelude.Assoc.{lookup, modify}
use vproc.Coroutine.{VPid, Coroutine, State, start_running, stop_running}
use vproc.Executor.{Executor, is_live, pick_next, deliver_signals}
use vproc.Vfd.Tables.{FdTables}

pub record World : Type 0 where
  pub executor : Executor
  pub fds : FdTables

-- `if let Some(cur) = self.current { if !co.is_done() { self.ready_queue.push_back(cur) } }`, with
-- a process that is not there left out too.
unfoldable pub requeue_current : Executor → Executor
unfolding is_live
requeue_current ex = elim ex.current [
  | none ↦ ex
  | some cur ↦ if is_live ex cur then record ex { ready_queue = ex.ready_queue ++ cur ∷ [] } else ex
]

-- `self.current = Some(next_pid); self.switch_count += 1;`
unfoldable pub switch_to : VPid → Executor → Executor
switch_to pid ex = record ex { current = some pid; switch_count = (ex.switch_count + 1) % 2 ^ 64 }

module _ (body : ℕ → World → World) (is_dead : ℕ → World → Bool) where
  -- `self.vprocs.get_mut(&pid).unwrap().resume()`. The callers have just found the process; an
  -- `unwrap` that fails changes nothing here.
  unfoldable pub resume : VPid → World → World
  resume pid w = elim (lookup pid w.executor.vprocs) [
    | none ↦ w
    | some c ↦
        let ex = w.executor in
        let started = record w {
          executor = record ex { vprocs = modify pid start_running ex.vprocs };
        } in
        let w' = body c.co started in
        let ex' = w'.executor in
        record w' {
          executor = record ex' { vprocs = modify pid (stop_running (is_dead c.co w')) ex'.vprocs };
        }
  ]

  unfoldable pub step : World → Bool × World
  unfolding requeue_current switch_to resume
  step w =
      let (next, ex) = pick_next w.executor in
      elim next [
        | none ↦ (false, record w { executor = ex })
        | some pid ↦
            let (killed, ex') = deliver_signals ex pid in
            let requeued : Executor = elim ex'.current [
              | none ↦ ex'
              | some cur ↦ record ex' { ready_queue = ex'.ready_queue ++ cur ∷ [] }
            ] in
            let resumed =
              resume pid (record w { executor = switch_to pid (requeue_current ex') }) in
            if killed then (true, record w { executor = requeued }) else (true, resumed)
      ]

  -- `Executor::yield`: the current process goes to the back of the queue, then a step.
  unfoldable pub yield_current : World → World
  unfolding step
  yield_current w =
      let ex = w.executor in
      let requeued : Executor = elim ex.current [
        | none ↦ ex
        | some pid ↦
            if is_live ex pid
            then (record ex {
              vprocs = modify pid (λ c. record c { state = State.ready }) ex.vprocs;
              ready_queue = ex.ready_queue ++ pid ∷ [];
            })
            else ex
      ] in
      (step (record w { executor = requeued })).1

  -- The result of `deliver_signals` is not looked at.
  unfoldable pub step_from_driver : World → World
  unfolding switch_to resume
  step_from_driver w =
      let (next, ex) = pick_next w.executor in
      elim next [
        | none ↦ record w { executor = ex }
        | some pid ↦
            let (killed, ex') = deliver_signals ex pid in
            let w' = resume pid (record w { executor = switch_to pid ex' }) in
            let ex'' = w'.executor in record w' { executor = record ex'' { current = none } }
      ]

  -- `do_yield`, by whether a coroutine runs on this thread. From a coroutine this is the part up
  -- to `mco_yield`.
  unfoldable pub do_yield : Bool → World → World
  unfolding requeue_current step_from_driver
  do_yield running w =
      if running then record w { executor = requeue_current w.executor } else step_from_driver w
