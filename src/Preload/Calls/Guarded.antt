-- ===== src/Preload/Calls/Guarded.antt =====
-- When `read` and `write` call the real ones.
use vproc.Prelude.{ℕ, ◌≡◌, refl, List, [], ◌∷◌, Bool, false, Option, none, some}
use vproc.Prelude.Int.{ℤ, pos}
use vproc.Vfd.Table.{Vfd, real, file, pipe_read, pipe_write}
use vproc.Preload.Host.{Host, Mode, passes}
use vproc.Preload.Process.{is_positive}
use vproc.Preload.Poll.{RealPoll, entry_of}
use vproc.Preload.Calls
use vproc.Preload.Calls.{real_target, real_round}

-- The real descriptor of a `Real` or a `File`, and the number itself for any other.
abbrev pub behind : Option Vfd → ℤ → ℤ
behind (some (real r)) fd = r
behind (some (file arc f)) fd = f.real_fd
behind (some (pipe_read p)) fd = fd
behind (some (pipe_write p)) fd = fd
behind none fd = fd

real_target-behind : (entry : Option Vfd) (fd : ℤ) → real_target entry fd ≡ behind entry fd
unfolding real_target
real_target-behind (some (real r)) fd = refl
real_target-behind (some (file arc f)) fd = refl
real_target-behind (some (pipe_read p)) fd = refl
real_target-behind (some (pipe_write p)) fd = refl
real_target-behind none fd = refl

module _ {ℓ} {K : Type ℓ} (real_poll : RealPoll K) where
  -- What a `poll` without a wait says of the real descriptor behind `fd`; POLLIN is 1, POLLOUT is 4.
  abbrev pub is_ready : ℕ → ℕ → ℤ → Host K → Bool
  is_ready flag vpid fd h =
      let target = behind (entry_of h.fds vpid fd) fd in
      is_positive
        (real_poll (record { fd = target; events = flag; revents = 0 } ∷ []) (pos 0) h.kernel).0

  unready_target :
      (flag vpid : ℕ) (fd : ℤ) (h : Host K)
      → is_ready flag vpid fd h ≡ false
      → let target = real_target (entry_of h.fds vpid fd) fd in
        is_positive
          (real_poll (record { fd = target; events = flag; revents = 0 } ∷ []) (pos 0) h.kernel).0
        ≡ false
  unready_target flag vpid fd h unready =
      rw (real_target-behind (entry_of h.fds vpid fd) fd) unready

  real_round-unready {μ} :
      {Out : Type μ} (call other : ℤ → K → ℤ × Out × K) (flag : ℕ) (fd : ℤ) (out : Out) (k : K)
      → is_positive (real_poll (record { fd = fd; events = flag; revents = 0 } ∷ []) (pos 0) k).0
        ≡ false
      → real_round real_poll call flag fd out k ≡ real_round real_poll other flag fd out k
  unfolding real_round
  real_round-unready call other flag fd out k unready = rw unready refl

  -- In a process, while `poll` does not find the real descriptor behind `fd` ready for POLLIN, what
  -- `read` does is the same whatever the real `read` would do: it is not called, and so cannot block
  -- the thread that all processes run on.
  pub read_guarded :
      (real_read other_read : List ℕ → ℤ → K → ℤ × List ℕ × K) (mode : Mode) (vpid : ℕ) (fd : ℤ)
      (dst : List ℕ) (h : Host K)
      → passes mode ≡ false
      → h.executor.current ≡ some vpid
      → is_ready 1 vpid fd h ≡ false
      → Calls.read real_poll real_read mode fd dst h ≡ Calls.read real_poll other_read mode fd dst h
  unfolding Calls.read
  read_guarded real_read other_read mode vpid fd dst h virtual running no_input =
      let target = real_target (entry_of h.fds vpid fd) fd in
      let reads =
        real_round-unready (real_read dst) (other_read dst) 1 target dst h.kernel
          (unready_target 1 vpid fd h no_input) in
      rw (virtual, running, reads) refl

  -- In a process, while `poll` does not find the real descriptor behind `fd` ready for POLLOUT, what
  -- `write` does is the same whatever the real `write` would do: it is not called, and so cannot block
  -- the thread that all processes run on.
  pub write_guarded :
      (real_write other_write : List ℕ → ℤ → K → ℤ × Unit {0} × K) (mode : Mode) (vpid : ℕ) (fd : ℤ)
      (src : List ℕ) (h : Host K)
      → passes mode ≡ false
      → h.executor.current ≡ some vpid
      → is_ready 4 vpid fd h ≡ false
      → Calls.write real_poll real_write mode fd src h
        ≡ Calls.write real_poll other_write mode fd src h
  unfolding Calls.write
  write_guarded real_write other_write mode vpid fd src h virtual running no_output =
      let target = real_target (entry_of h.fds vpid fd) fd in
      let writes =
        real_round-unready (real_write src) (other_write src) 4 target tt h.kernel
          (unready_target 4 vpid fd h no_output) in
      rw (virtual, running, writes) refl
