-- ===== src/Executor/Signals.antt =====
-- `deliver_signals`: what becomes of a process.
use vproc.Prelude.{
  ◌≡◌, ◌≢◌, ◌⊎◌, refl, ap, ◌∙◌, List, [], ◌∷◌, ◌++◌, true, false, none, some, arith, ◌==◌,
  Option-cases, Bool-cases, inl, inr, ne→==,
}
use vproc.Prelude.Int.{ℤ}
use vproc.Prelude.Assoc.{Assoc, lookup, modify, lookup-modify_ne, lookup-modify_self}
use vproc.Coroutine.{VPid, Coroutine, set_done}
use vproc.Executor.{Executor, is_fatal, exit_code_of, first_fatal, deliver_signals}

-- No signal of the list kills.
abbrev pub NoneFatal : List ℤ → Type 0
NoneFatal [] = Unit {0}
NoneFatal (sig ∷ signals) = (is_fatal sig ≡ false) × NoneFatal signals

-- The first signal of the list that kills.
abbrev pub FirstFatal : List ℤ → ℤ → Type 0
FirstFatal signals sig =
    (quiet : List ℤ) × (rest : List ℤ) × (signals ≡ quiet ++ sig ∷ rest)
    × NoneFatal quiet
    × (is_fatal sig ≡ true)

pub first_fatal_cases :
    (signals : List ℤ)
    → ((first_fatal signals ≡ none) × NoneFatal signals)
      ⊎ ((sig : ℤ) × (first_fatal signals ≡ some sig) × FirstFatal signals sig)
unfolding first_fatal
first_fatal_cases [] = inl (refl, tt)
first_fatal_cases (sig ∷ signals) = elim (Bool-cases (is_fatal sig)) [
  | inl fatal ↦ inr (sig, rw fatal, ([], signals, refl, tt, fatal))
  | inr harmless ↦ elim (first_fatal_cases signals) [
    | inl (e, quiet) ↦ inl (rw harmless e, (harmless, quiet))
    | inr (s, e, (quiet, rest, split, all, fatal)) ↦
        inr (s, rw harmless e, (sig ∷ quiet, rest, ap (λ l. sig ∷ l) split, (harmless, all), fatal))
  ]
]

module _ (ex : Executor) (pid : VPid) (c : Coroutine) (h : lookup pid ex.vprocs ≡ some c) where
  abbrev pub quieted : Assoc Coroutine
  quieted = modify pid (λ c. record c { pending_signals = [] }) ex.vprocs

  abbrev pub stopped : ℤ → Assoc Coroutine
  stopped sig = modify pid (λ c. set_done c (exit_code_of sig)) quieted

  pub deliver_none :
      first_fatal c.pending_signals ≡ none
      → deliver_signals ex pid ≡ (false, record ex { vprocs = quieted })
  unfolding deliver_signals
  deliver_none e = ground arith

  pub deliver_some :
      (sig : ℤ)
      → first_fatal c.pending_signals ≡ some sig
      → deliver_signals ex pid ≡ (true, record ex { vprocs = stopped sig })
  unfolding deliver_signals
  deliver_some sig e = ground arith

  pub lookup-quieted : lookup pid quieted ≡ some (record c { pending_signals = [] })
  lookup-quieted = lookup-modify_self pid (λ c. record c { pending_signals = [] }) c ex.vprocs h

  pub lookup-stopped :
      (sig : ℤ)
      → lookup pid (stopped sig)
        ≡ some (set_done (record c { pending_signals = [] }) (exit_code_of sig))
  lookup-stopped sig =
      lookup-modify_self pid (λ c. set_done c (exit_code_of sig))
        (record c { pending_signals = [] }) quieted lookup-quieted

-- `deliver_signals` on a process that is there takes all its pending signals. If one of them is
-- SIGKILL or SIGTERM, the process becomes done with exit code 128 plus the first such signal and
-- the result is true; if none is, the process is otherwise as it was and the result is false.
pub deliver_signals_lem :
    (ex : Executor) (pid : VPid) (c : Coroutine)
    → lookup pid ex.vprocs ≡ some c
    → let (killed, ex') = deliver_signals ex pid in
      let taken = record c { pending_signals = [] } in
      (NoneFatal c.pending_signals × (killed ≡ false) × (lookup pid ex'.vprocs ≡ some taken))
      ⊎ ((sig : ℤ) × FirstFatal c.pending_signals sig
          × (killed ≡ true)
          × (lookup pid ex'.vprocs ≡ some (set_done taken (exit_code_of sig))))
deliver_signals_lem ex pid c h = elim (first_fatal_cases c.pending_signals) [
  | inl (e, quiet) ↦ inl (rw (deliver_none ex pid c h e) (quiet, refl, lookup-quieted ex pid c h))
  | inr (sig, e, first) ↦
      inr (rw (deliver_some ex pid c h sig e) (sig, first, refl, lookup-stopped ex pid c h sig))
]

deliver_absent :
    (ex : Executor) (pid : VPid)
    → lookup pid ex.vprocs ≡ none
    → deliver_signals ex pid ≡ (false, ex)
unfolding deliver_signals
deliver_absent ex pid absent = ground arith

-- `deliver_signals` changes no other process, and nothing of the executor but the process.
pub deliver_signals_others :
    (ex : Executor) (pid other : VPid)
    → pid ≢ other
    → let ex' = (deliver_signals ex pid).1 in
      (lookup other ex'.vprocs ≡ lookup other ex.vprocs) × (ex' ≡ record ex { vprocs = ex'.vprocs })
deliver_signals_others ex pid other ne = elim (Option-cases (lookup pid ex.vprocs)) [
  | inl absent ↦ rw (deliver_absent ex pid absent) (refl, refl)
  | inr (c, h) ↦ elim (first_fatal_cases c.pending_signals) [
    | inl (e, quiet) ↦ rw (deliver_none ex pid c h e) (kept, refl)
    | inr (sig, e, first) ↦ rw (deliver_some ex pid c h sig e) (
      lookup-modify_ne pid other (λ c. set_done c (exit_code_of sig)) quiet_map apart ∙ kept,
      refl,
    )
  ]
]
  where
    apart : (pid == other) ≡ false
    apart = ne→== pid other ne

    quiet_map : Assoc Coroutine
    quiet_map = modify pid (λ c. record c { pending_signals = [] }) ex.vprocs

    kept : lookup other quiet_map ≡ lookup other ex.vprocs
    kept = lookup-modify_ne pid other (λ c. record c { pending_signals = [] }) ex.vprocs apart
