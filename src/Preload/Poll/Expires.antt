-- ===== src/Preload/Poll/Expires.antt =====
-- When the loop of `poll` returns.
use vproc.Prelude.{
  ℕ, zero, suc, ◌+◌, ◌<◌, ◌≤◌, ◌≡◌, ◌==◌, ==→eq, ap, Bool-cases, Option-cases, ◌↔◌, inl, inr, refl,
  sym, ◌∙◌, List, [], ◌∷◌, true, false, Option, none, some, is_some, arith,
}
use mathlib.Core.Path.{subst}
use vproc.Prelude.Int.{ℤ, pos, ◌==ℤ◌}
use vproc.Executor.Io.{PollFd}
use vproc.Vfd.Tables.{FdTables}
use vproc.Preload.Poll.{RealPoll, look_at, look_loop, poll_round, poll_rounds}

-- The two lists ask for the same events of the same descriptors.
abbrev SameAsks : List PollFd → List PollFd → Type 0
SameAsks [] [] = Unit {0}
SameAsks [] (q ∷ qs) = ⊥
SameAsks (p ∷ ps) [] = ⊥
SameAsks (p ∷ ps) (q ∷ qs) = (p.fd ≡ q.fd) × (p.events ≡ q.events) × SameAsks ps qs

SameAsks-refl : (ps : List PollFd) → SameAsks ps ps
SameAsks-refl [] = tt
SameAsks-refl (p ∷ ps) = (refl, refl, SameAsks-refl ps)

module _ {ℓ} {K : Type ℓ} (real_poll : RealPoll K) (vpid : ℕ) where
  -- How many descriptors a round finds ready.
  abbrev pub ready : FdTables × K → List PollFd → ℕ
  ready (s, k) pfds = (look_loop real_poll s vpid pfds k).1

  look_at-asks :
      (s : FdTables) (p q : PollFd) (k : K)
      → p.fd ≡ q.fd
      → p.events ≡ q.events
      → look_at real_poll s vpid p k ≡ look_at real_poll s vpid q k
  unfolding look_at
  look_at-asks s p q k same_fd same_events = rw (same_fd, same_events) refl

  ready-asks :
      (s : FdTables) (ps qs : List PollFd) (k : K)
      → SameAsks ps qs
      → ready (s, k) ps ≡ ready (s, k) qs
  unfolding look_loop
  ready-asks s [] [] k same = refl
  ready-asks s [] (q ∷ qs) k same = absurd same
  ready-asks s (p ∷ ps) [] k same = absurd same
  ready-asks s (p ∷ ps) (q ∷ qs) k (same_fd, same_events, same) =
      let looks = look_at-asks s p q k same_fd same_events in
      let rest = ready-asks s ps qs (look_at real_poll s vpid q k).kernel same in
      rw (looks, rest) refl

  look_loop-asks :
      (s : FdTables) (ps qs : List PollFd) (k : K)
      → SameAsks ps qs
      → SameAsks (look_loop real_poll s vpid ps k).0 qs
  unfolding look_loop
  look_loop-asks s [] [] k same = tt
  look_loop-asks s [] (q ∷ qs) k same = absurd same
  look_loop-asks s (p ∷ ps) [] k same = absurd same
  look_loop-asks s (p ∷ ps) (q ∷ qs) k (same_fd, same_events, same) =
      (same_fd, same_events, look_loop-asks s ps qs (look_at real_poll s vpid p k).kernel same)

  module _ (world : ℕ → FdTables × K) (pfds : List PollFd) (timeout : ℤ)
      (waits : (timeout ==ℤ pos 0) ≡ false) where
    round-idle :
        (i : ℕ) (ps : List PollFd)
        → SameAsks ps pfds
        → ready (world i) pfds ≡ 0
        → (poll_round real_poll (world i).0 vpid ps timeout (world i).1).0 ≡ none
    unfolding poll_round
    round-idle i ps same quiet = ground (arith, ready-asks (world i).0 ps pfds (world i).1 same)

    round-answers :
        (i : ℕ) (ps : List PollFd)
        → SameAsks ps pfds
        → 0 < ready (world i) pfds
        → is_some (poll_round real_poll (world i).0 vpid ps timeout (world i).1).0 ≡ true
    unfolding poll_round
    round-answers i ps same some_ready =
        ground (arith, ready-asks (world i).0 ps pfds (world i).1 same)

    next_asks :
        (i : ℕ) (ps : List PollFd)
        → SameAsks ps pfds
        → SameAsks (poll_round real_poll (world i).0 vpid ps timeout (world i).1).1 pfds
    unfolding poll_round
    next_asks i ps same = look_loop-asks (world i).0 ps pfds (world i).1 same

    rounds-waits :
        (rounds i : ℕ) (ps : List PollFd)
        → (poll_round real_poll (world i).0 vpid ps timeout (world i).1).0 ≡ none
        → poll_rounds real_poll world (suc rounds) i vpid ps timeout
          ≡ poll_rounds real_poll world rounds
              (i + 1)
              vpid
              (poll_round real_poll (world i).0 vpid ps timeout (world i).1).1
              timeout
    unfolding poll_rounds
    rounds-waits rounds i ps idle =
        let ps' = (poll_round real_poll (world i).0 vpid ps timeout (world i).1).1 in
        let later = poll_rounds real_poll world rounds (i + 1) vpid ps' timeout in
        ap (λ (o : Option ℤ). elim o [ none ↦ later | some ret ↦ some (ret, ps') ]) idle

    rounds-ends :
        (rounds i : ℕ) (ps : List PollFd) (ret : ℤ)
        → (poll_round real_poll (world i).0 vpid ps timeout (world i).1).0 ≡ some ret
        → is_some (poll_rounds real_poll world (suc rounds) i vpid ps timeout) ≡ true
    unfolding poll_rounds
    rounds-ends rounds i ps ret e =
        let ps' = (poll_round real_poll (world i).0 vpid ps timeout (world i).1).1 in
        let later = poll_rounds real_poll world rounds (i + 1) vpid ps' timeout in
        ap
          (λ (o : Option ℤ).
            is_some {A = ℤ × List PollFd} (elim o [ none ↦ later | some ret ↦ some (ret, ps') ]))
          e

    rounds-idle :
        (rounds i : ℕ) (ps : List PollFd)
        → SameAsks ps pfds
        → ((r : ℕ) → i ≤ r → r < i + rounds → ready (world r) pfds ≡ 0)
        → poll_rounds real_poll world rounds i vpid ps timeout ≡ none
    unfolding poll_rounds
    rounds-idle zero i ps same quiet = refl
    rounds-idle (suc rounds) i ps same quiet =
        let ps' = (poll_round real_poll (world i).0 vpid ps timeout (world i).1).1 in
        rounds-waits rounds i ps (round-idle i ps same (quiet i (omega arith) (omega arith)))
        ∙ rounds-idle rounds (i + 1) ps' (next_asks i ps same)
            (λ r from to. quiet r (omega arith) (omega arith))

    rounds-answer :
        (rounds i r : ℕ) (ps : List PollFd)
        → SameAsks ps pfds
        → i ≤ r
        → r < i + rounds
        → 0 < ready (world r) pfds
        → is_some (poll_rounds real_poll world rounds i vpid ps timeout) ≡ true
    rounds-answer zero i r ps same from to some_ready = absurd (omega arith)
    rounds-answer (suc rounds) i r ps same from to some_ready =
        let ps' = (poll_round real_poll (world i).0 vpid ps timeout (world i).1).1 in
        let answer = (poll_round real_poll (world i).0 vpid ps timeout (world i).1).0 in
        elim (Option-cases answer) [
          | inr (ret, e) ↦ rounds-ends rounds i ps ret e
          | inl idle ↦ elim (Bool-cases (i == r)) [
            | inl same_round ↦
                let now =
                  round-answers i ps same (
                    subst (λ j. 0 < ready (world j) pfds) (sym (==→eq i r same_round))
                      some_ready) in
                absurd (ground (arith, idle, now))
            | inr other ↦
                ap (is_some {A = ℤ × List PollFd}) (rounds-waits rounds i ps idle)
                ∙ rounds-answer rounds (i + 1) r ps' (next_asks i ps same) (ground (arith, other))
                    (omega arith) some_ready
          ]
        ]

    -- With a timeout other than 0, after any number of rounds `poll` still waits exactly when it found no
    -- descriptor ready in any of them, however long they took: a positive timeout never makes it
    -- return.
    pub poll_rounds_wait :
        (rounds : ℕ)
        → (poll_rounds real_poll world rounds 0 vpid pfds timeout ≡ none)
          ↔ ((r : ℕ) → r < rounds → ready (world r) pfds ≡ 0)
    poll_rounds_wait rounds = (
      λ still r lt. elim (Bool-cases (ready (world r) pfds == 0)) [
        | inl quiet ↦ ==→eq (ready (world r) pfds) 0 quiet
        | inr found ↦
            let answered =
              rounds-answer rounds 0 r pfds (SameAsks-refl pfds) (omega arith) (omega arith)
                (ground (arith, found)) in
            absurd (ground (arith, still, answered))
      ],
      λ quiet. rounds-idle rounds 0 pfds (SameAsks-refl pfds) (λ r from to. quiet r (omega arith)),
    )
