-- ===== src/Ffi/Session/Registry.antt =====
-- The map of sessions and their shutdown in src/ffi.rs: what holds of it whatever the threads do.
use vproc.Prelude.{
  ℕ, ◌≡◌, ◌≢◌, refl, sym, ap, ◌∙◌, [], ◌∷◌, true, false, none, some, ◌==◌, arith, length, get_elem?,
  modify_at, get_elem?-modify_at, get_elem?-modify_at_ne, get_elem?-modify_at_self,
  get_elem?-append_left, get_elem?-append_end, get_elem?-bound, Bool-cases, Option-cases, inl, inr,
}
use vproc.Prelude.Assoc.{lookup, remove, lookup-insert, lookup-remove}
use mathlib.Core.Path.{subst}
use vproc.Ffi.Session.{
  Session, Sessions, new_session, find_session, vproc_ffi_create_session, vproc_ffi_destroy_session,
}

-- What stands in the map for an id: a session with that id, which is not shut down.
abbrev pub IsAt : Sessions → ℕ → ℕ → Type 0
IsAt s session_id arc =
    (session : Session) × (get_elem? s.arcs arc ≡ some session)
    × (session.id ≡ session_id)
    × (session.shutdown ≡ false)

abbrev pub IsSane : Sessions → Type 0
IsSane s = (session_id arc : ℕ) → lookup session_id s.by_id ≡ some arc → IsAt s session_id arc

abbrev pub no_sessions : Sessions
no_sessions = record { by_id = []; next_session_id = 1; default_session = none; arcs = [] }

-- What the threads do: a session is created or destroyed, or the thread that holds the lock of a
-- session changes it otherwise.
pub data Step : Sessions → Sessions → Type 0 where
  create : (s : Sessions) → Step s (vproc_ffi_create_session s).1
  destroy : (s : Sessions) (session_id : ℕ) → Step s (vproc_ffi_destroy_session s session_id)
  change :
      (s : Sessions) (arc : ℕ) (f : Session → Session)
      → ((session : Session) → (f session).id ≡ session.id)
      → ((session : Session) → (f session).shutdown ≡ session.shutdown)
      → Step s (record s { arcs = modify_at s.arcs arc f })

pub data Reach : Sessions → Type 0 where
  start : Reach no_sessions
  next : {s t : Sessions} → Reach s → Step s t → Reach t

change-IsSane :
    (s : Sessions) (arc : ℕ) (f : Session → Session)
    → ((session : Session) → (f session).id ≡ session.id)
    → ((session : Session) → (f session).shutdown ≡ session.shutdown)
    → IsSane s
    → IsSane (record s { arcs = modify_at s.arcs arc f })
change-IsSane s arc f same_id same_shutdown sane session_id at found =
    let (session, held, is_id, up) = sane session_id at found in
    elim (Bool-cases (arc == at)) [
      | inl here ↦ (
        f session,
        ground (arith, held, here, get_elem?-modify_at s.arcs arc at f),
        ground (arith, same_id session),
        ground (arith, same_shutdown session),
      )
      | inr other ↦
          (session, ground (arith, held, other, get_elem?-modify_at s.arcs arc at f), is_id, up)
    ]

create-IsSane : (s : Sessions) → IsSane s → IsSane (vproc_ffi_create_session s).1
unfolding vproc_ffi_create_session new_session
create-IsSane s sane session_id at found =
    let made = new_session s.next_session_id in
    elim (Bool-cases (s.next_session_id == session_id)) [
      | inl here ↦
          let is_last : at ≡ length s.arcs =
            ground
              (arith, here, lookup-insert s.next_session_id session_id (length s.arcs) s.by_id) in
          (
            made,
            ground (arith, is_last, get_elem?-append_end s.arcs made),
            ground (arith, here),
            refl,
          )
      | inr other ↦
          let old : lookup session_id s.by_id ≡ some at =
            ground
              (arith, other, lookup-insert s.next_session_id session_id (length s.arcs) s.by_id) in
          let (session, held, is_id, up) = sane session_id at old in
          (
            session,
            ground (
              arith,
              held,
              get_elem?-append_left s.arcs (made ∷ []) at (get_elem?-bound s.arcs at held),
            ),
            is_id,
            up,
          )
    ]

-- `s.shutdown = true`
abbrev stop : Session → Session
stop session = record session { shutdown = true }

-- Two ids of the map never share a session.
arcs_differ :
    (s : Sessions) (one other p q : ℕ)
    → IsSane s
    → lookup one s.by_id ≡ some p
    → lookup other s.by_id ≡ some q
    → one ≢ other
    → p ≢ q
arcs_differ s one other p q sane at_one at_other differ same =
    let (x, held_x, id_x, up_x) = sane one p at_one in
    let (y, held_y, id_y, up_y) = sane other q at_other in
    let held : get_elem? s.arcs p ≡ some y = rw same held_y in
    let is_same : x ≡ y = cc in differ (sym id_x ∙ ap (λ (z : Session). z.id) is_same ∙ id_y)

-- The state after a session that was there is destroyed.
abbrev removed : Sessions → ℕ → ℕ → Sessions
removed s gone arc = record s { by_id = remove gone s.by_id; arcs = modify_at s.arcs arc stop }

destroyed_there :
    (s : Sessions) (gone arc : ℕ)
    → lookup gone s.by_id ≡ some arc
    → vproc_ffi_destroy_session s gone ≡ removed s gone arc
unfolding vproc_ffi_destroy_session
destroyed_there s gone arc there = ground (arith, there)

destroyed_absent :
    (s : Sessions) (gone : ℕ) → lookup gone s.by_id ≡ none → vproc_ffi_destroy_session s gone ≡ s
unfolding vproc_ffi_destroy_session
destroyed_absent s gone absent = ground (arith, absent)

-- Another id leads to the same place as before, where the session is still the same.
removed_other :
    (s : Sessions) (gone arc other at : ℕ)
    → IsSane s
    → lookup gone s.by_id ≡ some arc
    → other ≢ gone
    → lookup other s.by_id ≡ some at
    → get_elem? (removed s gone arc).arcs at ≡ get_elem? s.arcs at
removed_other s gone arc other at sane there differ found =
    get_elem?-modify_at_ne s.arcs arc at stop
      (arcs_differ s gone other arc at sane there found (λ e. differ (sym e)))

removed-IsSane :
    (s : Sessions) (gone arc : ℕ)
    → lookup gone s.by_id ≡ some arc
    → IsSane s
    → IsSane (removed s gone arc)
removed-IsSane s gone arc there sane session_id at found =
    let kept : lookup session_id s.by_id ≡ some at =
      ground (arith, found, lookup-remove gone session_id s.by_id) in
    let differ : session_id ≢ gone = ground (arith, found, lookup-remove gone session_id s.by_id) in
    let (session, held, is_id, up) = sane session_id at kept in
    (session, removed_other s gone arc session_id at sane there differ kept ∙ held, is_id, up)

destroy-IsSane : (s : Sessions) (gone : ℕ) → IsSane s → IsSane (vproc_ffi_destroy_session s gone)
destroy-IsSane s gone sane = elim (Option-cases (lookup gone s.by_id)) [
  | inl absent ↦ subst IsSane (sym (destroyed_absent s gone absent)) sane
  | inr (arc, there) ↦
      subst IsSane (sym (destroyed_there s gone arc there)) (removed-IsSane s gone arc there sane)
]

nothing-IsSane : IsSane no_sessions
unfolding lookup
nothing-IsSane session_id at found = cc

Step-IsSane : {s t : Sessions} → Step s t → IsSane s → IsSane t
Step-IsSane (create s) sane = create-IsSane s sane
Step-IsSane (destroy s gone) sane = destroy-IsSane s gone sane
Step-IsSane (change s arc f same_id same_shutdown) sane =
    change-IsSane s arc f same_id same_shutdown sane

-- However the threads create, destroy and change sessions from the start on, an id in the map leads to
-- the session that was created under it, and that session is not shut down.
pub Reach-IsSane : {s : Sessions} → Reach s → IsSane s
Reach-IsSane start = nothing-IsSane
Reach-IsSane (next r st) = Step-IsSane st (Reach-IsSane r)

-- In a state that the threads can reach, destroying one session takes it out of the map and shuts it
-- down, and every other id finds the session that it found before, unchanged.
pub vproc_ffi_destroy_session-find_session :
    {s : Sessions} (gone arc : ℕ) (session : Session)
    → Reach s
    → find_session s gone ≡ some (arc, session)
    → let s' = vproc_ffi_destroy_session s gone in
      (find_session s' gone ≡ none)
      × (get_elem? s'.arcs arc ≡ some (record session { shutdown = true }))
      × ((other : ℕ) → other ≢ gone → find_session s' other ≡ find_session s other)
unfolding find_session vproc_ffi_destroy_session
vproc_ffi_destroy_session-find_session {s = s} gone arc session r found =
    let there : lookup gone s.by_id ≡ some arc = ground (arith, found) in
    subst
      (λ s'.
        (find_session s' gone ≡ none)
        × (get_elem? s'.arcs arc ≡ some (record session { shutdown = true }))
        × ((other : ℕ) → other ≢ gone → find_session s' other ≡ find_session s other))
      (sym (destroyed_there s gone arc there))
      (
        ground (arith, lookup-remove gone gone s.by_id),
        ground (arith, found, get_elem?-modify_at_self s.arcs arc stop {a = session}),
        λ other differ. elim (Option-cases (lookup other s.by_id)) [
          | inl absent ↦ ground (arith, absent, lookup-remove gone other s.by_id)
          | inr (at, kept) ↦ ground (
            arith,
            differ,
            kept,
            lookup-remove gone other s.by_id,
            removed_other s gone arc other at (Reach-IsSane r) there differ kept,
          )
        ],
      )
