-- ===== src/Preload/Leave/Child.antt =====
-- The calls that a child of a real `fork` makes.
use vproc.Prelude.{ℕ, ◌≡◌, true, arith}
use vproc.Prelude.Int.{ℤ, pos}
use vproc.Preload.Host.{Kernel, Host, Mode}
use vproc.Preload.Process.{is_virtual, kill}
use vproc.Preload.Fds
use vproc.Preload.Fds.{real_close, real_dup, real_dup2}
use vproc.Preload.Leave.{fork}

module _ {ℓ} {K : Type ℓ} (sys : Kernel K) where
  -- In the child of a `fork`, `close`, `dup` and `dup2` are the real ones; but `kill` of a number that the
  -- executor has still makes no call of the kernel and returns 0, though the executor there is a copy.
  pub fork_child :
      (real_fork : K → ℤ × K) (mode : Mode) (h : Host K) (arc : ℕ) (fd new_fd pid sig : ℤ)
      → mode.enabled ≡ true
      → (real_fork h.kernel).0 ≡ pos 0
      → is_virtual pid h.executor ≡ true
      → let (ret, child, k) = fork real_fork mode h.kernel in
        (Fds.close sys child fd h ≡ real_close sys fd h)
        × (Fds.dup sys child arc fd h ≡ real_dup sys fd h)
        × (Fds.dup2 sys child arc fd new_fd h ≡ real_dup2 sys fd new_fd h)
        × ((kill sys child pid sig h).0 ≡ pos 0)
        × ((kill sys child pid sig h).1.kernel ≡ h.kernel)
  unfolding fork Fds.close Fds.dup Fds.dup2 kill
  fork_child real_fork mode h arc fd new_fd pid sig on in_child there = (
    ground (arith, on),
    ground (arith, on),
    ground (arith, on),
    ground (arith, on),
    ground (arith, on),
  )
