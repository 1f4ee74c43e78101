-- ===== src/Ffi/Session.antt =====
-- The sessions of src/ffi.rs. An `Arc<Mutex<Session>>` is a number in a heap of sessions, which the map
-- `SESSIONS` and the driver thread share; a result that a caller waits for is a number too. What the
-- caller sees of it at each look is an argument, since another thread writes it.
pub mod Registry
pub mod Polls
use vproc.Prelude.{
  ℕ, zero, suc, ◌+◌, ◌%◌, ◌^◌, List, [], ◌∷◌, ◌++◌, Bool, true, false, ◌||◌, Option, none, some,
  ltb, ◌==◌, if◌then◌else◌, length, get_elem?, modify_at,
}
use vproc.Prelude.Int.{ℤ, pos, minus_one}
use vproc.Prelude.Assoc.{Assoc, lookup, insert, remove, contains_key}
use vproc.Coroutine.{VPid}
use vproc.Executor
use vproc.Executor.{Executor}
use vproc.Executor.Exit.{get_exit_code}

pub record SpawnRequest : Type 0 where
  pub path : List ℕ
  pub argv : List (List ℕ)
  pub envp : List (List ℕ)
  pub stdin_fd : ℤ
  pub stdout_fd : ℤ
  pub stderr_fd : ℤ
  pub result : ℕ

pub record Waiter : Type 0 where
  pub vpid : VPid
  pub result : ℕ

pub record Session : Type 0 where
  pub id : ℕ
  pub executor : Executor
  pub spawn_queue : List SpawnRequest
  pub waiters : List Waiter
  pub saved_fds : ℤ × ℤ × ℤ
  pub probe_result : Option ℤ
  pub shutdown : Bool

-- The statics `SESSIONS`, `NEXT_SESSION_ID` and `DEFAULT_SESSION`, and the heap of sessions.
pub record Sessions : Type 0 where
  pub by_id : Assoc ℕ
  pub next_session_id : ℕ
  pub default_session : Option ℕ
  pub arcs : List Session

unfoldable pub new_session : ℕ → Session
unfolding Executor.new
new_session session_id = record {
  id = session_id;
  executor = Executor.new;
  spawn_queue = [];
  waiters = [];
  saved_fds = (minus_one, minus_one, minus_one);
  probe_result = none;
  shutdown = false;
}

-- The driver thread starts with the session that is put on the heap.
unfoldable pub vproc_ffi_create_session : Sessions → ℕ × Sessions
unfolding new_session
vproc_ffi_create_session s =
    let session_id = s.next_session_id in
    (
      session_id,
      record s {
        next_session_id = (session_id + 1) % 2 ^ 32;
        arcs = s.arcs ++ new_session session_id ∷ [];
        by_id = insert session_id (length s.arcs) s.by_id;
      },
    )

unfoldable pub vproc_ffi_destroy_session : Sessions → ℕ → Sessions
vproc_ffi_destroy_session s session_id = elim (lookup session_id s.by_id) [
  | none ↦ s
  | some arc ↦ record s {
    by_id = remove session_id s.by_id;
    arcs = modify_at s.arcs arc (λ session. record session { shutdown = true });
  }
]

-- The `Arc` with the session behind it, which is always there.
unfoldable pub find_session : Sessions → ℕ → Option (ℕ × Session)
find_session s session_id = elim (lookup session_id s.by_id) [
  | none ↦ none
  | some arc ↦ elim (get_elem? s.arcs arc) [ none ↦ none | some session ↦ some (arc, session) ]
]

-- `for _ in 0..100` with `try_lock`, of which the argument says whether it succeeds.
unfoldable pub try_locks : ℕ → ℕ → (ℕ → Bool) → Bool
try_locks zero at try_lock = false
try_locks (suc n) at try_lock = try_lock at || try_locks n (at + 1) try_lock

-- The last loop of `vproc_ffi_create_process`, on fuel; `none` is that the fuel ran out.
unfoldable pub poll_vpid : ℕ → ℕ → (ℕ → Option VPid) → Option VPid
poll_vpid zero attempts seen = none
poll_vpid (suc fuel) attempts seen =
    let rest = poll_vpid fuel (attempts + 1) seen in
    elim (seen attempts) [
      | some vpid ↦ some vpid
      | none ↦ if ltb 1000 (attempts + 1) then some 0 else rest
    ]

abbrev pub push_request : SpawnRequest → Session → Session
push_request request session = record session { spawn_queue = session.spawn_queue ++ request ∷ [] }

-- `granted` is that the blocking lock by which the driver is woken up is granted; where it is not, the
-- call does not come back, which is `none`. 1001 looks are enough fuel.
unfoldable pub vproc_ffi_create_process :
    (ℕ → Bool) → Bool → (ℕ → Option VPid) → Sessions → ℕ → SpawnRequest → Option VPid × Sessions
unfolding find_session try_locks poll_vpid
vproc_ffi_create_process try_lock granted seen s session_id request =
    elim (find_session s session_id) [
      | none ↦ (some 0, s)
      | some (arc, session) ↦
          let pushed : Sessions = record s { arcs = modify_at s.arcs arc (push_request request) } in
          let woken : Option VPid = if granted then poll_vpid 1001 0 seen else none in
          if try_locks 100 0 try_lock then (woken, pushed) else (some 0, s)
    ]

-- `for _ in 0..30000`
unfoldable pub poll_exit : ℕ → ℕ → (ℕ → Option ℤ) → ℤ
poll_exit zero at seen = minus_one
poll_exit (suc n) at seen =
    let rest = poll_exit n (at + 1) seen in elim (seen at) [ some code ↦ code | none ↦ rest ]

abbrev pub push_waiter : Waiter → Session → Session
push_waiter waiter session = record session { waiters = session.waiters ++ waiter ∷ [] }

-- `others` is what happens while the lock of the session is dropped. A stored exit code is looked
-- for first, then a process that is done.
unfoldable pub vproc_ffi_run_until_exit :
    (Sessions → Sessions) → (ℕ → Option ℤ) → Sessions → ℕ → VPid → ℕ → ℤ × Sessions
vproc_ffi_run_until_exit others seen s session_id vpid result = elim (find_session s session_id) [
  | none ↦ (minus_one, s)
  | some (arc, session) ↦ elim (get_exit_code session.executor vpid) [
    | some code ↦ (code, s)
    | none ↦
        let s' = others s in
        let waiter : Waiter = record { vpid = vpid; result = result } in
        let waiting = record s' { arcs = modify_at s'.arcs arc (push_waiter waiter) } in
        let waited : ℤ × Sessions = (poll_exit 30000 0 seen, waiting) in
        elim (get_elem? s'.arcs arc) [
          | none ↦ waited
          | some again ↦ elim (get_exit_code again.executor vpid) [
            | some code ↦ (code, s')
            | none ↦ waited
          ]
        ]
  ]
]

unfoldable pub vproc_ffi_vpid_exists : Sessions → ℕ → VPid → ℤ
unfolding find_session
vproc_ffi_vpid_exists s session_id vpid = elim (find_session s session_id) [
  | none ↦ pos 0
  | some (arc, session) ↦
      let ex = session.executor in
      if contains_key vpid ex.vprocs || contains_key vpid ex.exit_codes then pos 1 else pos 0
]

-- `LazyLock`: the first call creates the session.
unfoldable pub ensure_default_session : Sessions → ℕ × Sessions
unfolding vproc_ffi_create_session
ensure_default_session s = elim s.default_session [
  | some sid ↦ (sid, s)
  | none ↦
      let (sid, s') = vproc_ffi_create_session s in (sid, record s' { default_session = some sid })
]

unfoldable pub vproc_ffi_create_process_default :
    (ℕ → Bool) → Bool → (ℕ → Option VPid) → Sessions → SpawnRequest → Option VPid × Sessions
unfolding ensure_default_session vproc_ffi_create_process
vproc_ffi_create_process_default try_lock granted seen s request =
    let (sid, s') = ensure_default_session s in
    vproc_ffi_create_process try_lock granted seen s' sid request

unfoldable pub vproc_ffi_run_until_exit_default :
    (Sessions → Sessions) → (ℕ → Option ℤ) → Sessions → VPid → ℕ → ℤ × Sessions
unfolding ensure_default_session vproc_ffi_run_until_exit
vproc_ffi_run_until_exit_default others seen s vpid result =
    let (sid, s') = ensure_default_session s in
    vproc_ffi_run_until_exit others seen s' sid vpid result

unfoldable pub vproc_ffi_vpid_exists_default : Sessions → VPid → ℤ × Sessions
unfolding ensure_default_session vproc_ffi_vpid_exists
vproc_ffi_vpid_exists_default s vpid =
    let (sid, s') = ensure_default_session s in (vproc_ffi_vpid_exists s' sid vpid, s')

-- `for _ in 0..50`
unfoldable pub poll_probe : ℕ → ℕ → (ℕ → Option ℤ) → ℤ
poll_probe zero at seen = minus_one
poll_probe (suc n) at seen =
    let rest = poll_probe n (at + 1) seen in elim (seen at) [ some result ↦ result | none ↦ rest ]

unfoldable pub vproc_ffi_probe : (ℕ → Option ℤ) → Sessions → ℤ × Sessions
unfolding vproc_ffi_create_session find_session poll_probe
vproc_ffi_probe seen s =
    let (sid, s') = vproc_ffi_create_session s in
    let polled : ℤ × Sessions = elim (find_session s' sid) [
      | none ↦ (minus_one, s')
      | some (arc, session) ↦ (poll_probe 50 0 seen, s')
    ] in
    if sid == 0 then (minus_one, s') else polled
