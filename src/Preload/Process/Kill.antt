-- ===== src/Preload/Process/Kill.antt =====
-- From `kill` to the end of the process.
use vproc.Prelude.{◌≡◌, refl, List, [], ◌∷◌, ◌++◌, true, some, arith}
use vproc.Prelude.Int.{ℤ, pos}
use vproc.Prelude.Assoc.{lookup, lookup-modify_self}
use vproc.Coroutine.{Coroutine, set_done}
use vproc.Executor.{is_fatal, first_fatal, exit_code_of, deliver_signals}
use vproc.Executor.Signals.{deliver_some, lookup-stopped, NoneFatal}
use vproc.Preload.Host.{Kernel, Host, Mode, as_u32}
use vproc.Preload.Process.{queue_signal, is_virtual, kill}

first_fatal-append :
    (signals : List ℤ) (sig : ℤ)
    → NoneFatal signals
    → is_fatal sig ≡ true
    → first_fatal (signals ++ sig ∷ []) ≡ some sig
unfolding first_fatal
first_fatal-append [] sig quiet fatal = rw fatal refl
first_fatal-append (s ∷ signals) sig (harmless, quiet) fatal =
    rw harmless (first_fatal-append signals sig quiet fatal)

-- A fatal signal that `kill` sends to a process of the executor, which has no fatal one pending, is
-- accepted without a call of the kernel, and when signals are delivered to the process it becomes
-- done, with exit code 128 plus the signal and no signal pending.
pub kill_lem {ℓ} :
    {K : Type ℓ} (sys : Kernel K) (mode : Mode) (pid sig : ℤ) (c : Coroutine) (h : Host K)
    → mode.enabled ≡ true
    → is_virtual pid h.executor ≡ true
    → lookup (as_u32 pid) h.executor.vprocs ≡ some c
    → NoneFatal c.pending_signals
    → is_fatal sig ≡ true
    → let (result, h') = kill sys mode pid sig h in
      let (killed, ex) = deliver_signals h'.executor (as_u32 pid) in
      (result ≡ pos 0)
      × (h'.kernel ≡ h.kernel)
      × (killed ≡ true)
      × (lookup (as_u32 pid) ex.vprocs
          ≡ some (set_done (record c { pending_signals = [] }) (exit_code_of sig)))
unfolding kill
kill_lem sys mode pid sig c h on virtual there quiet fatal =
    let queued = record c { pending_signals = c.pending_signals ++ sig ∷ [] } in
    let vpid = as_u32 pid in
    let ex = queue_signal vpid sig h.executor in
    let now : lookup vpid ex.vprocs ≡ some queued =
      lookup-modify_self vpid
        (λ (c : Coroutine). record c { pending_signals = c.pending_signals ++ sig ∷ [] }) c
        h.executor.vprocs there in
    let first = first_fatal-append c.pending_signals sig quiet fatal in
    ground (arith, deliver_some ex vpid queued now sig first, lookup-stopped ex vpid queued now sig)
