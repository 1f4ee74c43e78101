-- ===== src/Executor/Step/Turns.antt =====
-- The driver's turns when every coroutine yields by `do_yield`.
use vproc.Prelude.{
  ℕ, zero, suc, ◌≡◌, refl, sym, ◌∙◌, List, [], ◌∷◌, ◌++◌, Bool, true, false, none, some, arith,
  ◌==◌, if◌then◌else◌, length,
}
use mathlib.Core.List.{append_assoc, append-nil}
use mathlib.Core.Path.{subst}
use vproc.Prelude.Assoc.{Assoc, lookup, modify, lookup-modify}
use vproc.Coroutine.{VPid, Coroutine, State, is_done, start_running, stop_running}
use vproc.Executor.{Executor, is_live, pick_from, pick_next, first_fatal}
use vproc.Executor.Signals.{deliver_none, lookup-quieted, quieted}
use vproc.Executor.Step.{World, resume, step_from_driver, switch_to, requeue_current, do_yield}

-- A process that can run and has no signal pending.
abbrev pub IsCalm : Assoc Coroutine → VPid → Type 0
IsCalm vprocs pid =
    (c : Coroutine) × (lookup pid vprocs ≡ some c) × (is_done c ≡ false) × (c.pending_signals ≡ [])

abbrev pub AllCalm : Assoc Coroutine → List VPid → Type 0
AllCalm vprocs [] = Unit {0}
AllCalm vprocs (pid ∷ pids) = IsCalm vprocs pid × AllCalm vprocs pids

-- The processes after a turn of `pid` that ends in a yield.
abbrev after_turn : VPid → Assoc Coroutine → Assoc Coroutine
after_turn pid vprocs =
    modify pid (stop_running false)
      (modify pid start_running (modify pid (λ c. record c { pending_signals = [] }) vprocs))

after_turn-IsCalm :
    (pid q : VPid) (vprocs : Assoc Coroutine) → IsCalm vprocs q → IsCalm (after_turn pid vprocs) q
unfolding stop_running start_running is_done
after_turn-IsCalm pid q vprocs (c, h, alive, calm) =
    let quiet = λ (c : Coroutine). record c { pending_signals = [] } in
    let rested : Coroutine = record c { state = State.ready; pending_signals = [] } in
    (
      if pid == q then rested else c,
      ground (
        arith,
        lookup-modify pid q quiet vprocs,
        lookup-modify pid q start_running (modify pid quiet vprocs),
        lookup-modify pid q (stop_running false)
            (modify pid start_running (modify pid quiet vprocs)),
      ),
      ground arith,
      ground arith,
    )

after_turn-AllCalm :
    (pid : VPid) (vprocs : Assoc Coroutine) (pids : List VPid)
    → AllCalm vprocs pids
    → AllCalm (after_turn pid vprocs) pids
after_turn-AllCalm pid vprocs [] a = tt
after_turn-AllCalm pid vprocs (q ∷ pids) (a, as') =
    (after_turn-IsCalm pid q vprocs a, after_turn-AllCalm pid vprocs pids as')

AllCalm-snoc :
    (vprocs : Assoc Coroutine) (pids : List VPid) (pid : VPid)
    → AllCalm vprocs pids
    → IsCalm vprocs pid
    → AllCalm vprocs (pids ++ pid ∷ [])
AllCalm-snoc vprocs [] pid all a = (a, tt)
AllCalm-snoc vprocs (q ∷ pids) pid (b, all) a = (b, AllCalm-snoc vprocs pids pid all a)

pick_next-calm :
    (ex : Executor) (pid : VPid) (rest : List VPid)
    → ex.ready_queue ≡ pid ∷ rest
    → IsCalm ex.vprocs pid
    → pick_next ex ≡ (some pid, record ex { ready_queue = rest })
unfolding pick_next pick_from is_live is_done
pick_next-calm ex pid rest q (c, h, run, calm) = ground arith

module _ (body : ℕ → World → World) (is_dead : ℕ → World → Bool) where
  -- The driver's loop, for a number of turns.
  abbrev pub turns : ℕ → World → World
  turns zero w = w
  turns (suc n) w = turns n (step_from_driver body is_dead w)

module _ (body : ℕ → World → World) (is_dead : ℕ → World → Bool)
    (yields : (co : ℕ) (v : World) → body co v ≡ do_yield body is_dead true v)
    (alive : (co : ℕ) (v : World) → is_dead co v ≡ false) where
  -- What the process runs up to its yield, from when the driver has taken it off the queue.
  resume_yields :
      (w : World) (pid : VPid) (c : Coroutine)
      → lookup pid w.executor.vprocs ≡ some c
      → w.executor.current ≡ some pid
      → is_done c ≡ false
      → let ex' = (resume body is_dead pid w).executor in
        (ex'.ready_queue ≡ w.executor.ready_queue ++ pid ∷ [])
        × (ex'.vprocs
            ≡ modify pid (stop_running false) (modify pid start_running w.executor.vprocs))
  unfolding resume do_yield requeue_current is_live is_done start_running
  resume_yields w pid c h cur run =
      let ex = w.executor in
      let started = record w {
        executor = record ex { vprocs = modify pid start_running ex.vprocs };
      } in
      ground (
        arith,
        yields c.co started,
        alive c.co (body c.co started),
        lookup-modify pid pid start_running ex.vprocs,
      )

  -- One turn: the head of the queue goes to its end.
  turn :
      (w : World) (pid : VPid) (rest : List VPid)
      → w.executor.ready_queue ≡ pid ∷ rest
      → IsCalm w.executor.vprocs pid
      → let ex' = (step_from_driver body is_dead w).executor in
        (ex'.ready_queue ≡ rest ++ pid ∷ []) × (ex'.vprocs ≡ after_turn pid w.executor.vprocs)
  unfolding step_from_driver switch_to first_fatal is_done
  turn w pid rest q (c, h, run, calm) =
      let ex = record w.executor { ready_queue = rest } in
      let quiet = record c { pending_signals = [] } in
      let none_fatal : first_fatal c.pending_signals ≡ none = ground arith in
      let taken = record w {
        executor = switch_to pid (record ex { vprocs = quieted ex pid c h });
      } in
      let picked = pick_next-calm w.executor pid rest q (c, h, run, calm) in
      let delivered = deliver_none ex pid c h none_fatal in
      let resumed = resume_yields taken pid quiet (lookup-quieted ex pid c h) refl run in
      ground (arith, picked, delivered, resumed)

  -- Where every coroutine yields by `do_yield` each time it runs and none ends, and every process
  -- of the queue is there, not done and without a pending signal, the driver's turns serve the
  -- queue in order: after as many turns as `first` is long, a queue `first ++ second` is
  -- `second ++ first`. So after a whole round each process has run once and the queue is as before.
  pub rounds :
      (first second : List VPid) (w : World)
      → w.executor.ready_queue ≡ first ++ second
      → AllCalm w.executor.vprocs (first ++ second)
      → (turns body is_dead (length first) w).executor.ready_queue ≡ second ++ first
  rounds [] second w q calm = q ∙ sym (append-nil second)
  rounds (pid ∷ first) second w q (a, calm) =
      let (queue, vprocs) = turn w pid (first ++ second) q a in
      let w' = step_from_driver body is_dead w in
      rounds first (second ++ pid ∷ []) w' (queue ∙ append_assoc first second (pid ∷ []))
        (requeued w' vprocs)
      ∙ append_assoc second (pid ∷ []) first
    where
      requeued :
          (w' : World)
          → w'.executor.vprocs ≡ after_turn pid w.executor.vprocs
          → AllCalm w'.executor.vprocs (first ++ (second ++ pid ∷ []))
      requeued w' e = rw e (
          after_turn-AllCalm pid w.executor.vprocs (first ++ (second ++ pid ∷ [])) (
            subst (AllCalm w.executor.vprocs) (append_assoc first second (pid ∷ []))
              (AllCalm-snoc w.executor.vprocs (first ++ second) pid calm a)))
