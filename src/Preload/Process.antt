-- ===== src/Preload/Process.antt =====
-- The intercepted functions of src/preload.rs on processes: identifiers, signals, the working
-- directory and waiting.
pub mod Kill
use vproc.Prelude.{
  ℕ, ◌+◌, ◌*◌, ◌%◌, List, [], ◌∷◌, ◌++◌, Bool, true, false, ◌&&◌, not, Option, none, some, ◌==◌,
  if◌then◌else◌, is_some,
}
use vproc.Prelude.Int.{ℤ, pos, negsuc, minus_one, ◌==ℤ◌, is_negative}
use vproc.Prelude.Assoc.{lookup, modify, contains_key}
use vproc.Coroutine.{VPid, Coroutine}
use vproc.Executor.{Executor, is_fatal, exit_code_of}
use vproc.Executor.Exit.{vproc_exit_with_code, get_exit_code}
use vproc.Vfd.Table.{get}
use vproc.Vfd.Tables.{get_table}
use vproc.Preload.Host.{Kernel, Host, Mode, passes, as_u32, as_c_int}
use vproc.Preload.Paths.{resolve_path}

abbrev pub is_positive : ℤ → Bool
is_positive n = not (is_negative n) && not (n ==ℤ pos 0)

-- `co.pending_signals.push(sig)`
abbrev pub queue_signal : VPid → ℤ → Executor → Executor
queue_signal pid sig ex = record ex {
  vprocs = modify pid (λ c. record c { pending_signals = c.pending_signals ++ sig ∷ [] }) ex.vprocs;
}

-- `pid > 0` and the executor has the process.
abbrev pub is_virtual : ℤ → Executor → Bool
is_virtual pid ex = is_positive pid && contains_key (as_u32 pid) ex.vprocs

-- The functions that only read: `real` is what the C library returns.
unfoldable pub getpid : Mode → Executor → ℤ → ℤ
getpid mode ex real =
    let virtual : ℤ = elim ex.current [ none ↦ real | some pid ↦ as_c_int pid ] in
    if not mode.enabled then real else virtual

unfoldable pub getppid : Mode → Executor → ℤ → ℤ
getppid mode ex real =
    let virtual : ℤ = elim ex.current [
      | none ↦ real
      | some pid ↦ elim (lookup pid ex.vprocs) [ none ↦ pos 0 | some c ↦ as_c_int c.ppid ]
    ] in
    if not mode.enabled then real else virtual

unfoldable pub getpgid : Mode → Executor → ℤ → ℤ → ℤ
getpgid mode ex pid real =
    let own : ℤ = elim ex.current [ none ↦ real | some vpid ↦ as_c_int vpid ] in
    if not mode.enabled
    then real
    else (if is_virtual pid ex then pid else (if pid ==ℤ pos 0 then own else real))

unfoldable pub setpgid : Mode → Executor → ℤ → ℤ → ℤ
setpgid mode ex pid real =
    if not mode.enabled
    then real
    else (if is_virtual pid ex
        then pos 0
        else (if (pid ==ℤ pos 0) && is_some ex.current then pos 0 else real))

-- `setsid` and `getpgrp` alike.
unfoldable pub own_group : Mode → Executor → ℤ → ℤ
own_group mode ex real =
    let virtual : ℤ = elim ex.current [ none ↦ real | some vpid ↦ as_c_int vpid ] in
    if mode.enabled then virtual else real

module _ {ℓ} {K : Type ℓ} (sys : Kernel K) where
  unfoldable pub kill : Mode → ℤ → ℤ → Host K → ℤ × Host K
  kill mode pid sig h =
      let (ret, k) = sys.send_signal pid sig h.kernel in
      let sent : ℤ × Host K = (ret, record h { kernel = k }) in
      let queued : ℤ × Host K =
        (pos 0, record h { executor = queue_signal (as_u32 pid) sig h.executor }) in
      if not mode.enabled then sent else (if is_virtual pid h.executor then queued else sent)

  -- `none` where control does not come back.
  unfoldable pub raise : Mode → ℤ → Host K → Option ℤ × Host K
  unfolding is_fatal vproc_exit_with_code
  raise mode sig h =
      let (ret, k) = sys.raise_signal sig h.kernel in
      let raised : Option ℤ × Host K = (some ret, record h { kernel = k }) in
      let exited : Option ℤ × Host K =
        (none, record h { executor = vproc_exit_with_code h.executor (exit_code_of sig) }) in
      let virtual : Option ℤ × Host K = elim h.executor.current [
        | none ↦ raised
        | some vpid ↦ elim (lookup vpid h.executor.vprocs) [
          | none ↦ (some (pos 0), h)
          | some c ↦
              if is_fatal sig
              then exited
              else (some (pos 0), record h { executor = queue_signal vpid sig h.executor })
        ]
      ] in
      if mode.enabled then virtual else raised

  -- `process_cwd` is the result of `process_cwd()`. A resolved path has no zero byte, since neither
  -- part of it has one.
  unfoldable pub chdir : Mode → List ℕ → List ℕ → Host K → ℤ × Host K
  unfolding resolve_path
  chdir mode process_cwd path h =
      let (real_ret, real_k) = sys.change_dir path h.kernel in
      let passed : ℤ × Host K = (real_ret, record h { kernel = real_k }) in
      let virtual : ℤ × Host K = elim h.executor.current [
        | none ↦ passed
        | some vpid ↦ elim (lookup vpid h.executor.vprocs) [
          | none ↦ passed
          | some c ↦
              let cwd : List ℕ = elim c.cwd [ none ↦ process_cwd | some dir ↦ dir ] in
              let resolved = resolve_path cwd path in
              let (ret, k) = sys.change_dir resolved h.kernel in
              let ex = h.executor in
              let moved : Executor = record ex {
                vprocs = modify vpid (λ c. record c { cwd = some resolved }) ex.vprocs;
              } in
              if ret ==ℤ pos 0
              then (ret, record h { kernel = k; executor = moved })
              else (ret, record h { kernel = k })
        ]
      ] in
      if passes mode then passed else virtual

-- `(code & 0xff) << 8`
unfoldable pub wait_status : ℤ → ℕ
unfolding as_u32
wait_status code = as_u32 code % 256 * 256

-- One round of the loop of `waitpid` on a virtual process: the result with the status, or `none` to
-- yield and look again.
unfoldable pub waitpid_round : Executor → ℤ → Option (ℤ × Option ℕ)
unfolding get_exit_code wait_status
waitpid_round ex pid = elim (get_exit_code ex (as_u32 pid)) [
  | some code ↦ some (pid, some (wait_status code))
  | none ↦ if contains_key (as_u32 pid) ex.vprocs then none else some (minus_one, none)
]
