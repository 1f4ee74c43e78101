-- ===== src/Executor/Queue.antt =====
-- The ready queue: `pick_next`.
use vproc.Prelude.{
  ◌≡◌, refl, ap, List, [], ◌∷◌, ◌++◌, true, false, Option, none, some, Bool-cases, inl, inr,
}
use vproc.Coroutine.{VPid}
use vproc.Executor.{Executor, is_live, pick_from, pick_next}

-- No entry of the queue can run.
abbrev pub AllStale : Executor → List VPid → Type 0
AllStale ex [] = Unit {0}
AllStale ex (pid ∷ queue) = (is_live ex pid ≡ false) × AllStale ex queue

-- How a queue is split: stale entries, then the picked one, then the rest as it was; or all of
-- it is stale and none is picked.
abbrev pub Picks : Executor → List VPid → Option VPid × List VPid → Type 0
Picks ex queue (none, rest) = AllStale ex queue × (rest ≡ [])
Picks ex queue (some pid, rest) =
    (stale : List VPid) × (queue ≡ stale ++ pid ∷ rest)
    × AllStale ex stale
    × (is_live ex pid ≡ true)

pick_from-Picks : (ex : Executor) (queue : List VPid) → Picks ex queue (pick_from ex queue)
unfolding pick_from
pick_from-Picks ex [] = (tt, refl)
pick_from-Picks ex (pid ∷ queue) = elim (Bool-cases (is_live ex pid)) [
  | inl live ↦ rw live ([], refl, tt, live)
  | inr stale ↦ rw stale (skipped pid queue (pick_from ex queue) stale (pick_from-Picks ex queue))
]
  where
    skipped :
        (pid : VPid) (queue : List VPid) (out : Option VPid × List VPid)
        → is_live ex pid ≡ false
        → Picks ex queue out
        → Picks ex (pid ∷ queue) out
    skipped pid queue (none, rest) h (all, e) = ((h, all), e)
    skipped pid queue (some q, rest) h (stale, e, all, live) =
        (pid ∷ stale, ap (λ l. pid ∷ l) e, (h, all), live)

-- `pick_next` takes the first entry of the queue whose process is there and not done, drops the
-- stale entries before it, and keeps the order of the entries after it; it returns none exactly
-- when every entry is stale, and the queue is then empty. Nothing else of the executor changes.
pub pick_next-Picks :
    (ex : Executor)
    → let (pid, ex') = pick_next ex in
      Picks ex ex.ready_queue (pid, ex'.ready_queue)
      × (ex' ≡ record ex { ready_queue = ex'.ready_queue })
unfolding pick_next
pick_next-Picks ex = (pick_from-Picks ex ex.ready_queue, refl)
