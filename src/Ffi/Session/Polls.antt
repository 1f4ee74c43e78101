-- ===== src/Ffi/Session/Polls.antt =====
-- The loops of src/ffi.rs that wait for a result.
use vproc.Prelude.{
  ℕ, zero, suc, ◌+◌, ◌≤◌, ◌<◌, ◌≡◌, Bool, true, if◌then◌else◌, Option, none, some, is_some, arith,
  ◌==◌, Bool-cases, inl, inr, get_elem?, get_elem?-modify_at_self,
}
use vproc.Prelude.Int.{ℤ}
use vproc.Coroutine.{VPid}
use vproc.Ffi.Session.{
  SpawnRequest, Session, Sessions, push_request, find_session, try_locks, poll_vpid, poll_exit,
  vproc_ffi_create_process,
}

try_locks_some :
    (n from at : ℕ) (try_lock : ℕ → Bool)
    → from ≤ at
    → at < n + from
    → try_lock at ≡ true
    → try_locks n from try_lock ≡ true
unfolding try_locks
try_locks_some zero from at try_lock le within h = absurd (omega arith)
try_locks_some (suc n) from at try_lock le within h = elim (Bool-cases (from == at)) [
  | inl here ↦
      let same : from ≡ at = ground arith in
      let locked : try_lock from ≡ true = rw same h in ground (arith, locked)
  | inr later ↦
      let more : from < at = ground arith in
      ground (arith, try_locks_some n (from + 1) at try_lock (omega arith) (omega arith) h)
]

-- What is found stands at its place on the heap.
pub find_session_at :
    (s : Sessions) (session_id : ℕ) {arc : ℕ} {session : Session}
    → find_session s session_id ≡ some (arc, session)
    → get_elem? s.arcs arc ≡ some session
unfolding find_session
find_session_at s session_id h = ground arith

poll_vpid_ends :
    (fuel attempts : ℕ) (seen : ℕ → Option VPid)
    → 1000 < fuel + attempts
    → 0 < fuel
    → is_some (poll_vpid fuel attempts seen) ≡ true
unfolding poll_vpid
poll_vpid_ends zero attempts seen long h = absurd (omega arith)
poll_vpid_ends (suc fuel) attempts seen long h =
    ground (arith, poll_vpid_ends fuel (attempts + 1) seen)

poll_vpid_first :
    (fuel attempts i : ℕ) (seen : ℕ → Option VPid) (vpid : VPid)
    → attempts ≤ i
    → i ≤ 1000
    → i < fuel + attempts
    → ((j : ℕ) → attempts ≤ j → j < i → seen j ≡ none)
    → seen i ≡ some vpid
    → poll_vpid fuel attempts seen ≡ some vpid
unfolding poll_vpid
poll_vpid_first zero attempts i seen vpid le small within before h = absurd (omega arith)
poll_vpid_first (suc fuel) attempts i seen vpid le small within before h =
    elim (Bool-cases (attempts == i)) [
      | inl here ↦
          let same : attempts ≡ i = ground arith in
          let answered : seen attempts ≡ some vpid = rw same h in ground (arith, answered)
      | inr later ↦
          let more : attempts < i = ground arith in
          let unanswered : seen attempts ≡ none = before attempts (omega arith) more in
          ground (
            arith,
            unanswered,
            poll_vpid_first fuel (attempts + 1) i seen vpid (omega arith) small (omega arith)
                (λ j from upto. before j (omega arith) upto) h,
          )
    ]

pub poll_exit_first :
    (n from i : ℕ) (seen : ℕ → Option ℤ) (code : ℤ)
    → from ≤ i
    → i < n + from
    → ((j : ℕ) → from ≤ j → j < i → seen j ≡ none)
    → seen i ≡ some code
    → poll_exit n from seen ≡ code
unfolding poll_exit
poll_exit_first zero from i seen code le within before h = absurd (omega arith)
poll_exit_first (suc n) from i seen code le within before h = elim (Bool-cases (from == i)) [
  | inl here ↦
      let same : from ≡ i = ground arith in
      let answered : seen from ≡ some code = rw same h in ground (arith, answered)
  | inr later ↦
      let more : from < i = ground arith in
      let unanswered : seen from ≡ none = before from (omega arith) more in
      ground (
        arith,
        unanswered,
        poll_exit_first n (from + 1) i seen code (omega arith) (omega arith)
            (λ j past upto. before j (omega arith) upto) h,
      )
]

-- Where the lock by which the driver is woken up is granted, `vproc_ffi_create_process` comes back,
-- whatever the attempts at the lock and the looks at the result find.
pub vproc_ffi_create_process_ends :
    (try_lock : ℕ → Bool) (seen : ℕ → Option VPid) (s : Sessions) (session_id : ℕ)
    (request : SpawnRequest)
    → is_some (vproc_ffi_create_process try_lock true seen s session_id request).0 ≡ true
unfolding vproc_ffi_create_process
vproc_ffi_create_process_ends try_lock seen s session_id request =
    ground (arith, poll_vpid_ends 1001 0 seen (omega arith) (omega arith))

-- Where the session is there, `vproc_ffi_create_process` puts its request at the end of the queue of
-- that session once one of the 100 attempts takes the lock. Where then the lock by which the driver is
-- woken up is granted, it answers what the driver has written at the first of the looks 0 to 1000 that
-- finds an answer; where it is not, it does not come back.
pub vproc_ffi_create_process_answers :
    (try_lock : ℕ → Bool) (granted : Bool) (seen : ℕ → Option VPid) (s : Sessions)
    (session_id arc at i : ℕ) (session : Session) (request : SpawnRequest) (vpid : VPid)
    → find_session s session_id ≡ some (arc, session)
    → at < 100
    → try_lock at ≡ true
    → i ≤ 1000
    → ((j : ℕ) → j < i → seen j ≡ none)
    → seen i ≡ some vpid
    → let (answer, s') = vproc_ffi_create_process try_lock granted seen s session_id request in
      (answer ≡ (if granted then some vpid else none))
      × (get_elem? s'.arcs arc ≡ some (push_request request session))
unfolding vproc_ffi_create_process
vproc_ffi_create_process_answers try_lock granted seen s session_id arc at i session request vpid
      found in_time locked small before h =
    ground (
      arith,
      found,
      try_locks_some 100 0 at try_lock (omega arith) (omega arith) locked,
      poll_vpid_first 1001 0 i seen vpid (omega arith) small (omega arith)
          (λ j from upto. before j upto) h,
      get_elem?-modify_at_self s.arcs arc (push_request request)
          (find_session_at s session_id found),
    )
