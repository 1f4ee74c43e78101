-- ===== src/Ffi/Driver/Answers.antt =====
-- The answers of the driver to the waiters of a session.
use vproc.Prelude.{
  ℕ, zero, suc, ◌≡◌, ◌≢◌, ◌<◌, ◌++◌, refl, get_elem?-modify_at_self, List, [], ◌∷◌, Option, none,
  some, is_some, not, arith, get_elem?, retain, Option-cases, inl, inr,
}
use vproc.Prelude.Int.{ℤ}
use vproc.Prelude.Assoc.{Assoc, lookup, insert, lookup-insert}
use mathlib.Core.Path.{subst}
use mathlib.Core.Option
use vproc.Executor.{Executor}
use vproc.Executor.Exit.{get_exit_code}
use vproc.Ffi.Session.{
  Waiter, Session, Sessions, find_session, poll_exit, push_waiter, vproc_ffi_run_until_exit,
}
use vproc.Ffi.Session.Polls.{poll_exit_first}
use vproc.Ffi.Driver.{DriverState, answer_waiters, reap, settle}

-- No waiter of the list takes its answer at the number.
abbrev pub IsUnused : ℕ → List Waiter → Type 0
IsUnused result [] = Unit
IsUnused result (w ∷ waiters) = (w.result ≢ result) × IsUnused result waiters

-- Each waiter has a result of its own, as `Arc::new` gives it.
abbrev pub AreApart : List Waiter → Type 0
AreApart [] = Unit
AreApart (w ∷ waiters) = IsUnused w.result waiters × AreApart waiters

-- The waiters without an answer are kept, in order.
pub answer_waiters-retain :
    (ex : Executor) (waiters : List Waiter) (exits : Assoc ℤ)
    → (answer_waiters ex waiters exits).0
      ≡ retain (λ w. not (is_some (get_exit_code ex w.vpid))) waiters
unfolding answer_waiters
answer_waiters-retain ex [] exits = refl
answer_waiters-retain ex (w ∷ waiters) exits = elim (Option-cases (get_exit_code ex w.vpid)) [
  | inl pending ↦ ground (arith, pending, answer_waiters-retain ex waiters exits)
  | inr (code, done) ↦
      ground (arith, done, answer_waiters-retain ex waiters (insert w.result code exits))
]

lookup-answer_waiters_unused :
    (ex : Executor) (waiters : List Waiter) (exits : Assoc ℤ) (result : ℕ)
    → IsUnused result waiters
    → lookup result (answer_waiters ex waiters exits).1 ≡ lookup result exits
unfolding answer_waiters
lookup-answer_waiters_unused ex [] exits result unused = refl
lookup-answer_waiters_unused ex (w ∷ waiters) exits result unused =
    elim (Option-cases (get_exit_code ex w.vpid)) [
      | inl pending ↦
          ground (arith, pending, lookup-answer_waiters_unused ex waiters exits result unused.1)
      | inr (code, done) ↦ ground (
        arith,
        done,
        unused.0,
        lookup-insert w.result result code exits,
        lookup-answer_waiters_unused ex waiters (insert w.result code exits) result unused.1,
      )
    ]

IsUnused-apart :
    (result : ℕ) (waiters : List Waiter) (i : ℕ) {w : Waiter}
    → IsUnused result waiters
    → get_elem? waiters i ≡ some w
    → w.result ≢ result
IsUnused-apart result [] i unused h = cc
IsUnused-apart result (x ∷ waiters) zero unused h = ground (arith, unused.0)
IsUnused-apart result (x ∷ waiters) (suc i) unused h = IsUnused-apart result waiters i unused.1 h

-- What stands at the result of a waiter afterwards.
abbrev pub answer_or : Option ℤ → Option ℤ → Option ℤ
answer_or none before = before
answer_or (some code) before = some code

lookup-answer_waiters_head :
    (ex : Executor) (w : Waiter) (waiters : List Waiter) (exits : Assoc ℤ)
    → IsUnused w.result waiters
    → lookup w.result (answer_waiters ex (w ∷ waiters) exits).1
      ≡ answer_or (get_exit_code ex w.vpid) (lookup w.result exits)
unfolding answer_waiters
lookup-answer_waiters_head ex w waiters exits unused =
    elim (Option-cases (get_exit_code ex w.vpid)) [
      | inl pending ↦
          ground (arith, pending, lookup-answer_waiters_unused ex waiters exits w.result unused)
      | inr (code, done) ↦ ground (
        arith,
        done,
        lookup-insert w.result w.result code exits,
        lookup-answer_waiters_unused ex waiters (insert w.result code exits) w.result unused,
      )
    ]

lookup-answer_waiters :
    (ex : Executor) (waiters : List Waiter) (exits : Assoc ℤ) (i : ℕ) {w : Waiter}
    → AreApart waiters
    → get_elem? waiters i ≡ some w
    → lookup w.result (answer_waiters ex waiters exits).1
      ≡ answer_or (get_exit_code ex w.vpid) (lookup w.result exits)
unfolding answer_waiters
lookup-answer_waiters ex [] exits i apart h = cc
lookup-answer_waiters ex (x ∷ waiters) exits zero {w = w} apart h =
    let is_first : x ≡ w = ground arith in
    subst
      (λ (v : Waiter).
        lookup v.result (answer_waiters ex (x ∷ waiters) exits).1
        ≡ answer_or (get_exit_code ex v.vpid) (lookup v.result exits))
      is_first (lookup-answer_waiters_head ex x waiters exits apart.0)
lookup-answer_waiters ex (x ∷ waiters) exits (suc i) {w = w} apart h =
    let differ : w.result ≢ x.result = IsUnused-apart x.result waiters i apart.0 h in
    elim (Option-cases (get_exit_code ex x.vpid)) [
      | inl pending ↦ ground (arith, pending, lookup-answer_waiters ex waiters exits i apart.1 h)
      | inr (code, done) ↦ ground (
        arith,
        done,
        differ,
        lookup-insert x.result w.result code exits,
        lookup-answer_waiters ex waiters (insert x.result code exits) i apart.1 h,
      )
    ]

module _ {ℓ} {K : Type ℓ} (real_close : ℤ → K → K) where
  -- In a round of the driver, before it reaps, every waiter whose process has an exit code finds that
  -- code at its result, what stands at the result of another waiter is unchanged, and exactly the
  -- waiters without an exit code go on waiting, in order.
  pub settle_answers :
      (d : DriverState K) (i : ℕ) (w : Waiter)
      → AreApart d.session.waiters
      → get_elem? d.session.waiters i ≡ some w
      → let d' = (settle real_close d).0 in
        let code_of : Waiter → Option ℤ = λ v. get_exit_code d.session.executor v.vpid in
        (lookup w.result d'.exits ≡ answer_or (code_of w) (lookup w.result d.exits))
        × (d'.session.waiters ≡ retain (λ v. not (is_some (code_of v))) d.session.waiters)
  unfolding settle reap
  settle_answers d i w apart h = (
    lookup-answer_waiters d.session.executor d.session.waiters d.exits i apart h,
    answer_waiters-retain d.session.executor d.session.waiters d.exits,
  )

  -- `vproc_ffi_run_until_exit` brings back the exit code. Where neither look at the process found one,
  -- it adds a waiter to those of the session; when the driver comes to a round in which the process has
  -- the exit code `code`, and that waiter is there, among whichever others, each with a result of its
  -- own, what it writes is what the caller returns at the first of its 30000 looks that finds it.
  pub vproc_ffi_run_until_exit_returns :
      (others : Sessions → Sessions) (seen : ℕ → Option ℤ) (s : Sessions)
      (session_id arc vpid result i at : ℕ) (session again : Session) (d : DriverState K) (code : ℤ)
      → find_session s session_id ≡ some (arc, session)
      → get_exit_code session.executor vpid ≡ none
      → get_elem? (others s).arcs arc ≡ some again
      → get_exit_code again.executor vpid ≡ none
      → get_elem? d.session.waiters at ≡ some (record { vpid = vpid; result = result })
      → AreApart d.session.waiters
      → get_exit_code d.session.executor vpid ≡ some code
      → i < 30000
      → ((j : ℕ) → j < i → seen j ≡ none)
      → seen i ≡ lookup result (settle real_close d).0.exits
      → let (answer, s') = vproc_ffi_run_until_exit others seen s session_id vpid result in
        (answer ≡ code)
        × (Option.map (λ (x : Session). x.waiters) (get_elem? s'.arcs arc)
            ≡ some (again.waiters ++ record { vpid = vpid; result = result } ∷ []))
  unfolding vproc_ffi_run_until_exit
  vproc_ffi_run_until_exit_returns others seen s session_id arc vpid result i at session again d
        code found pending held still waiting apart done within before look =
      let w : Waiter = record { vpid = vpid; result = result } in
      let (written, kept) = settle_answers d at w apart waiting in
      let answered : seen i ≡ some code = ground (arith, look, written, done) in
      let polled : poll_exit 30000 0 seen ≡ code =
        poll_exit_first 30000 0 i seen code (omega arith) (omega arith)
          (λ j from upto. before j upto) answered in
      ground (
        arith,
        found,
        pending,
        held,
        still,
        polled,
        get_elem?-modify_at_self (others s).arcs arc (push_waiter w) held,
      )
