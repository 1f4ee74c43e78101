-- ===== src/Ffi/Driver/Requests.antt =====
-- The answers of the driver to spawn requests.
use vproc.Prelude.{
  ℕ, zero, suc, ◌≡◌, ◌≢◌, refl, List, [], ◌∷◌, Option, none, some, arith, get_elem?, take,
}
use vproc.Prelude.Assoc.{lookup, insert, lookup-insert}
use mathlib.Core.Path.{subst}
use vproc.Coroutine.{VPid}
use vproc.Executor.Step.{World}
use vproc.Vfd.Table
use vproc.Vfd.Tables.{get_table, put_table, create_table_with_fds}
use vproc.Ffi.Session.{SpawnRequest}
use vproc.Ffi.Driver.{DriverState, serve_one, serve_all}

-- No request of the list takes its answer at the number.
abbrev pub IsUnused : ℕ → List SpawnRequest → Type 0
IsUnused result [] = Unit
IsUnused result (r ∷ requests) = (r.result ≢ result) × IsUnused result requests

abbrev pub AreApart : List SpawnRequest → Type 0
AreApart [] = Unit
AreApart (r ∷ requests) = IsUnused r.result requests × AreApart requests

abbrev pub answer_of : Option VPid → VPid
answer_of none = 0
answer_of (some vpid) = vpid

module _ {ℓ} {K : Type ℓ} (load : SpawnRequest → World × K → Option VPid × World × K) where
  -- What loading gives for a request, from the state of the driver.
  abbrev pub loaded : SpawnRequest → DriverState K → Option VPid × World × K
  loaded request d = load request (record { executor = d.session.executor; fds = d.fds }, d.kernel)

  lookup-serve_one :
      (request : SpawnRequest) (d : DriverState K) (result : ℕ)
      → lookup result (serve_one load request d).spawned
        ≡ lookup result (insert request.result (answer_of (loaded request d).0) d.spawned)
  unfolding serve_one
  lookup-serve_one request d result = ground arith

  lookup-serve_all_unused :
      (requests : List SpawnRequest) (d : DriverState K) (result : ℕ)
      → IsUnused result requests
      → lookup result (serve_all load requests d).spawned ≡ lookup result d.spawned
  unfolding serve_all
  lookup-serve_all_unused [] d result unused = refl
  lookup-serve_all_unused (r ∷ requests) d result unused = ground (
    arith,
    unused.0,
    lookup-serve_all_unused requests (serve_one load r d) result unused.1,
    lookup-serve_one r d result,
    lookup-insert r.result result (answer_of (loaded r d).0) d.spawned,
  )

  -- The requests are served in order, and each finds its own answer: where each has a result of its
  -- own, what stands at that of request `i` is the process that loading it gives, 0 where that is an
  -- error, in the state that serving the requests before it leaves.
  pub lookup-serve_all :
      (requests : List SpawnRequest) (d : DriverState K) (i : ℕ) (request : SpawnRequest)
      → AreApart requests
      → get_elem? requests i ≡ some request
      → lookup request.result (serve_all load requests d).spawned
        ≡ some (answer_of (loaded request (serve_all load (take i requests) d)).0)
  unfolding serve_all
  lookup-serve_all [] d i request apart h = cc
  lookup-serve_all (r ∷ requests) d zero request apart h =
      let is_first : r ≡ request = ground arith in
      subst
        (λ (v : SpawnRequest).
          lookup v.result (serve_all load (r ∷ requests) d).spawned
          ≡ some (answer_of (loaded v d).0))
        is_first
        (ground (
          arith,
          lookup-serve_all_unused requests (serve_one load r d) r.result apart.0,
          lookup-serve_one r d r.result,
          lookup-insert r.result r.result (answer_of (loaded r d).0) d.spawned,
        ))
  lookup-serve_all (r ∷ requests) d (suc i) request apart h =
      lookup-serve_all requests (serve_one load r d) i request apart.1 h

  -- A request that loads as `vpid` gets the three descriptors that it names, in a new table for that
  -- number. The storage is one for all sessions: whatever table had the number, of this session or of
  -- another, is replaced. The tables of other numbers stay as loading left them.
  pub get_table-serve_one :
      (request : SpawnRequest) (d : DriverState K) (vpid at : VPid)
      → (loaded request d).0 ≡ some vpid
      → (get_table (serve_one load request d).fds vpid
          ≡ some (Table.new_with_fds request.stdin_fd request.stdout_fd request.stderr_fd))
        × (at ≢ vpid
            → get_table (serve_one load request d).fds at ≡ get_table (loaded request d).1.fds at)
  unfolding serve_one get_table put_table create_table_with_fds
  get_table-serve_one request d vpid at h =
      let made = Table.new_with_fds request.stdin_fd request.stdout_fd request.stderr_fd in
      let tables = (loaded request d).1.fds.tables in
      ground (arith, h, lookup-insert vpid vpid made tables, lookup-insert vpid at made tables)
