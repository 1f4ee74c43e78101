-- ===== src/Ffi/Driver/Sleep.antt =====
-- When the driver waits on its condition variable, and what a round without work does.
use vproc.Prelude.{
  ℕ, zero, suc, ◌≡◌, refl, ap, ◌∙◌, List, [], ◌∷◌, Bool, true, false, ◌||◌, not, if◌then◌else◌,
  Option, none, some, is_some, arith, get_elem?, retain, Option-cases, inl, inr,
}
use vproc.Prelude.Int.{ℤ}
use vproc.Prelude.Assoc.{Assoc, lookup, any_value-lookup}
use vproc.Coroutine.{VPid, Coroutine, is_done}
use vproc.Executor.{Executor, pick_next, pick_from, is_live}
use vproc.Executor.Exit.{get_exit_code}
use vproc.Executor.Io.{PollFd, collect_io_waits}
use vproc.Executor.Reap.{is_nonempty}
use vproc.Executor.Step.{World}
use vproc.Executor.Step.Swap.{step_from_driver_with_fd_swap}
use vproc.Ffi.Session.{Waiter, Session, SpawnRequest}
use vproc.Ffi.Driver.{
  DriverState, Round, returns, aborts, polls, stop_driver, waits, driver_round, drain_queue,
  serve_all, has_ready, has_work, wakes_up, drive, settle, reap, answer_waiters,
}
use vproc.Ffi.Driver.Answers.{answer_waiters-retain}

abbrev pub IsAwake : Executor → List VPid → Type 0
IsAwake ex [] = Unit
IsAwake ex (pid ∷ queue) =
    ((c : Coroutine) → lookup pid ex.vprocs ≡ some c → c.io_wait ≡ none) × IsAwake ex queue

not_live :
    (ex : Executor) (pid : VPid)
    → has_ready ex ≡ false
    → ((c : Coroutine) → lookup pid ex.vprocs ≡ some c → c.io_wait ≡ none)
    → is_live ex pid ≡ false
unfolding is_live has_ready
not_live ex pid idle awake = elim (Option-cases (lookup pid ex.vprocs)) [
  | inl absent ↦ ground (arith, absent)
  | inr (c, found) ↦ ground (
    arith,
    found,
    idle,
    awake c found,
    any_value-lookup (λ c. not (is_done c || elim c.io_wait [ none ↦ false | some wait ↦ true ]))
        pid c ex.vprocs found,
  )
]

pick_from-none :
    (ex : Executor) (queue : List VPid)
    → has_ready ex ≡ false
    → IsAwake ex queue
    → pick_from ex queue ≡ (none, [])
unfolding pick_from
pick_from-none ex [] idle awake = refl
pick_from-none ex (pid ∷ queue) idle awake =
    ground (arith, not_live ex pid idle awake.0, pick_from-none ex queue idle awake.1)

-- The step of such a round finds no process to run, and empties the queue.
drive_idle {ℓ} :
    {K : Type ℓ} (dup3 : ℤ → ℤ → K → ℤ × K) (body : ℕ → World × K → World × K)
    (is_dead : ℕ → World × K → Bool) (d : DriverState K)
    → wakes_up d.session ≡ false
    → IsAwake d.session.executor d.session.executor.ready_queue
    → let s = d.session in
      let ex = s.executor in
      drive dup3 body is_dead d
      ≡ some (record d { session = record s { executor = record ex { ready_queue = [] } } })
unfolding wakes_up has_work drive step_from_driver_with_fd_swap pick_next
drive_idle dup3 body is_dead d asleep awake =
    let idle : has_ready d.session.executor ≡ false = ground arith in
    ground (arith, pick_from-none d.session.executor d.session.executor.ready_queue idle awake)

nonempty_none {ℓ} : {A : Type ℓ} (l : List A) → is_nonempty l ≡ false → l ≡ []
nonempty_none [] h = refl
nonempty_none (a ∷ l) h = absurd (ground arith)

-- Nothing of what wakes a driver is there.
idle_parts :
    (s : Session)
    → wakes_up s ≡ false
    → (s.spawn_queue ≡ []) × (s.waiters ≡ []) × (s.shutdown ≡ false)
unfolding wakes_up has_work
idle_parts s asleep = (
  nonempty_none s.spawn_queue (ground arith),
  nonempty_none s.waiters (ground arith),
  ground arith,
)

-- The driver with an empty ready queue.
abbrev pub unqueued {ℓ} : {K : Type ℓ} → DriverState K → DriverState K
unqueued d =
    let s = d.session in
    record d { session = record s { executor = record s.executor { ready_queue = [] } } }

-- How a round ends that has nothing to do but to reap and to poll.
abbrev pub reaped_round {ℓ} : {K : Type ℓ} → DriverState K → Round K
reaped_round d =
    let polled = collect_io_waits d.session.executor.vprocs in
    if is_nonempty polled then polls d polled else waits d

module _ {ℓ} {K : Type ℓ} (load : SpawnRequest → World × K → Option VPid × World × K)
    (dup3 : ℤ → ℤ → K → ℤ × K) (body : ℕ → World × K → World × K) (is_dead : ℕ → World × K → Bool)
    (real_close : ℤ → K → K) where
  drain_queue-idle : (d : DriverState K) → d.session.spawn_queue ≡ [] → drain_queue load d ≡ d
  unfolding drain_queue serve_all
  drain_queue-idle d none_there = rw none_there (ground arith)

  settle-idle :
      (d : DriverState K)
      → d.session.waiters ≡ []
      → settle real_close d
        ≡ (reap real_close d, collect_io_waits (reap real_close d).session.executor.vprocs)
  unfolding settle answer_waiters
  settle-idle d none_there =
      let s = d.session in
      let answered : answer_waiters s.executor s.waiters d.exits ≡ (s.waiters, d.exits) =
        rw none_there refl in
      let settled : List Waiter × Assoc ℤ → DriverState K × List (PollFd × VPid) = λ a.
        let d' : DriverState K = record d { session = record s { waiters = a.0 }; exits = a.1 } in
        let reaped = reap real_close d' in
        (reaped, collect_io_waits reaped.session.executor.vprocs) in
      ap settled answered

  -- A driver may sleep: where nothing wakes it and no queued process waits for I/O, a further round would
  -- run no process, serve no request and answer no waiter. It would empty the ready queue, which
  -- names no process that can run, reap the processes that are done, and poll for those that wait.
  pub driver_round_idle :
      (d : DriverState K)
      → wakes_up d.session ≡ false
      → IsAwake d.session.executor d.session.executor.ready_queue
      → driver_round load dup3 body is_dead real_close d
        ≡ reaped_round (reap real_close (unqueued d))
  unfolding driver_round
  driver_round_idle d asleep awake =
      let s = d.session in
      let (no_request, no_waiter, running) = idle_parts s asleep in
      let finish : Option (DriverState K) → Round K = λ driven. elim driven [
        | none ↦ aborts
        | some driven ↦
            let (settled, polled) = settle real_close driven in
            if is_nonempty polled then polls settled polled else waits settled
      ] in
      let choose : DriverState K × List (PollFd × VPid) → Round K =
        λ r. if is_nonempty r.1 then polls r.0 r.1 else waits r.0 in
      let start : Bool → Round K = λ stops.
        if stops
        then returns (stop_driver real_close d)
        else finish (drive dup3 body is_dead (drain_queue load d)) in
      ap start running
      ∙ ap (λ x. finish (drive dup3 body is_dead x)) (drain_queue-idle d no_request)
      ∙ ap finish (drive_idle dup3 body is_dead d asleep awake)
      ∙ ap choose (settle-idle (unqueued d) no_waiter)

retain-is_nonempty :
    (p : Waiter → Bool) (waiters : List Waiter) (i : ℕ) (w : Waiter)
    → get_elem? waiters i ≡ some w
    → p w ≡ true
    → is_nonempty (retain p waiters) ≡ true
retain-is_nonempty p [] i w h keep = cc
retain-is_nonempty p (x ∷ waiters) zero w h keep = ground arith
retain-is_nonempty p (x ∷ waiters) (suc i) w h keep =
    ground (arith, retain-is_nonempty p waiters i w h keep)

-- After a round that leaves the process of a waiter without an exit code, the driver goes on without
-- sleeping.
pub settle-wakes_up {ℓ} :
    {K : Type ℓ} (real_close : ℤ → K → K) (d : DriverState K) (i : ℕ) (w : Waiter)
    → get_elem? d.session.waiters i ≡ some w
    → get_exit_code d.session.executor w.vpid ≡ none
    → wakes_up (settle real_close d).0.session ≡ true
unfolding wakes_up has_work settle reap
settle-wakes_up real_close d i w h pending =
    let ex = d.session.executor in
    let kept : is_nonempty (answer_waiters ex d.session.waiters d.exits).0 ≡ true =
      rw (answer_waiters-retain ex d.session.waiters d.exits) (
        retain-is_nonempty (λ v. not (is_some (get_exit_code ex v.vpid))) d.session.waiters i w h
          (ground (arith, pending))) in
    ground (arith, kept)
