-- ===== src/Preload/Host.antt =====
-- What the intercepted functions of src/preload.rs work on: the executor, the descriptor tables and
-- the kernel, which is an interface. A null executor pointer acts as an executor without processes.
use vproc.Prelude.{ℕ, ◌-◌, ◌%◌, ◌^◌, List, Bool, ◌||◌, not, ltb, if◌then◌else◌}
use vproc.Prelude.Int.{ℤ, pos, negsuc}
use vproc.Prelude.Assoc.{insert}
use vproc.Executor.{Executor}
use vproc.Vfd.Table.{VfdTable, Pipes}
use vproc.Vfd.Tables.{FdTables}

-- The calls of the real C library, on a state of the kernel. A negative result is a failure.
pub record Kernel {ℓ} (K : Type ℓ) : Type ℓ where
  pub close_fd : ℤ → K → ℤ × K
  pub dup_fd : ℤ → K → ℤ × K
  pub dup2_fd : ℤ → ℤ → K → ℤ × K
  pub change_dir : List ℕ → K → ℤ × K
  pub send_signal : ℤ → ℤ → K → ℤ × K
  pub raise_signal : ℤ → K → ℤ × K

pub record Host {ℓ} (K : Type ℓ) : Type ℓ where
  pub executor : Executor
  pub fds : FdTables
  pub kernel : K
  pub errno : ℕ

-- `enabled()` and `is_real_fork_child()`.
pub record Mode : Type 0 where
  pub enabled : Bool
  pub fork_child : Bool

-- `!enabled() || is_real_fork_child()`
abbrev pub passes : Mode → Bool
passes mode = not mode.enabled || mode.fork_child

-- `as u32` and `as c_int`.
unfoldable pub as_u32 : ℤ → ℕ
as_u32 (pos n) = n % 2 ^ 32
as_u32 (negsuc n) = 2 ^ 32 - 1 - n % 2 ^ 32

unfoldable pub as_c_int : ℕ → ℤ
as_c_int n = if ltb n (2 ^ 31) then pos n else negsuc (2 ^ 32 - 1 - n)

-- A change of a table through a reference, and of the buffers.
abbrev pub update_table : ℕ → VfdTable → Pipes → FdTables → FdTables
update_table vpid t pipes s = record { tables = insert vpid t s.tables; pipes = pipes }
