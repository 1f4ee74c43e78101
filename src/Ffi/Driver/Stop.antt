-- ===== src/Ffi/Driver/Stop.antt =====
-- The end of a driver, when its session is destroyed.
use vproc.Prelude.{ℕ, ◌≡◌, refl, Bool, true, Option, none, arith}
use vproc.Prelude.Int.{ℤ}
use vproc.Prelude.Assoc.{lookup}
use vproc.Coroutine.{VPid}
use vproc.Executor.Step.{World}
use vproc.Vfd.Tables.{get_table, cleanup}
use vproc.Ffi.Session.{SpawnRequest}
use vproc.Ffi.Driver.{DriverState, returns, reap, stop_driver, driver_round}

module _ {ℓ} {K : Type ℓ} (load : SpawnRequest → World × K → Option VPid × World × K)
    (dup3 : ℤ → ℤ → K → ℤ × K) (body : ℕ → World × K → World × K) (is_dead : ℕ → World × K → Bool)
    (real_close : ℤ → K → K) where
  -- The driver of a session that is shut down returns in its next round, and leaves no descriptor
  -- table behind for any process: also those of the other sessions, which still run, are gone, since
  -- all sessions share the storage. It serves no request and answers no waiter on the way.
  pub driver_round_stops :
      (d : DriverState K)
      → d.session.shutdown ≡ true
      → (driver_round load dup3 body is_dead real_close d ≡ returns (stop_driver real_close d))
        × ((vpid : VPid) → get_table (stop_driver real_close d).fds vpid ≡ none)
        × ((stop_driver real_close d).spawned ≡ d.spawned)
        × ((stop_driver real_close d).exits ≡ d.exits)
        × ((stop_driver real_close d).session.waiters ≡ d.session.waiters)
  unfolding driver_round stop_driver reap get_table cleanup lookup
  driver_round_stops d h = (ground (arith, h), λ vpid. refl, refl, refl, refl)
