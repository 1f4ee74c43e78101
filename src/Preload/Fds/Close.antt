-- ===== src/Preload/Fds/Close.antt =====
-- The intercepted `close`: the table and the kernel after it.
use vproc.Prelude.{
  ℕ, ◌^◌, ◌<◌, ◌≡◌, ◌≢◌, refl, sym, false, Option, none, some, arith, ◌==◌, if◌then◌else◌,
  Option-cases, inl, inr,
}
use mathlib.Core.Path.{subst}
use vproc.Prelude.Int.{ℤ, pos}
use vproc.Prelude.Assoc.{lookup, insert, lookup-insert}
use vproc.Prelude.Assoc.Distinct.{Distinct}
use vproc.Vfd.Table
use vproc.Vfd.Table.{
  Vfd, real, file, pipe_read, pipe_write, FileRef, Pipes, VfdTable, get, close_file_fd,
  refers_to_file,
}
use vproc.Vfd.Table.Close.{Other, close_reads, close_file_fd_reads, close_file_fd_last}
use vproc.Vfd.Tables.{FdTables, get_table}
use vproc.Preload.Host.{Kernel, Host, Mode, passes, as_u32, update_table}
use vproc.Preload.Fds
use vproc.Preload.Fds.{close_in, real_close}

-- The table without the descriptor `n`.
abbrev pub Without : ℕ → VfdTable → Option VfdTable → Type 0
Without n t none = ⊥
Without n t (some t') = (j : ℕ) → get t' j ≡ (if n == j then none else get t j)

module _ {ℓ} {K : Type ℓ} (sys : Kernel K) where
  close-close_in :
      (mode : Mode) (n vpid : ℕ) (t : VfdTable) (h : Host K)
      → passes mode ≡ false
      → h.executor.current ≡ some vpid
      → get_table h.fds vpid ≡ some t
      → Fds.close sys mode (pos n) h ≡ close_in sys vpid t (pos n) h
  unfolding Fds.close
  close-close_in mode n vpid t h virtual running there = ground arith

  module _ (n vpid : ℕ) (t : VfdTable) (h : Host K) (small : n < 2 ^ 32) where
    same_fd : as_u32 (pos n) ≡ n
    unfolding as_u32
    same_fd = omega (arith, small)

    abbrev closed_host : Host K
    closed_host =
        let (result, t', pipes') = Table.close t n h.fds.pipes in
        record h { fds = update_table vpid t' pipes' h.fds }

    abbrev file_host : Host K
    file_host = record h { fds = update_table vpid (close_file_fd t n).1 h.fds.pipes h.fds }

    close_in-other :
        (vfd : Vfd)
        → get t n ≡ some vfd
        → ((arc : ℕ) (f : FileRef) → vfd ≢ file arc f)
        → close_in sys vpid t (pos n) h ≡ (pos 0, closed_host)
    unfolding close_in get
    close_in-other (real r) e other = ground (arith, same_fd)
    close_in-other (file arc f) e other = absurd (other arc f refl)
    close_in-other (pipe_read p) e other = ground (arith, same_fd, (close_reads t n h.fds.pipes).0)
    close_in-other (pipe_write p) e other = ground (arith, same_fd, (close_reads t n h.fds.pipes).0)

    close_in-file_shared :
        (arc : ℕ) (f : FileRef)
        → get t n ≡ some (file arc f)
        → (close_file_fd t n).0 ≡ none
        → close_in sys vpid t (pos n) h ≡ (pos 0, file_host)
    unfolding close_in get
    close_in-file_shared arc f e shared = ground (arith, same_fd)

    close_in-file_last :
        (arc : ℕ) (f : FileRef) (r : ℤ)
        → get t n ≡ some (file arc f)
        → (close_file_fd t n).0 ≡ some r
        → close_in sys vpid t (pos n) h
          ≡ (pos 0, record file_host { kernel = (sys.close_fd r h.kernel).1 })
    unfolding close_in get real_close
    close_in-file_last arc f r e last = ground (arith, same_fd)

  -- The kernel after the close of descriptor `n` with an entry.
  abbrev pub KernelAfter : ℕ → VfdTable → Vfd → K → K → Type ℓ
  KernelAfter n t (file arc f) k k' =
      ((j : ℕ) (other : Vfd) → Other (refers_to_file arc) t n j other → k' ≡ k)
      × (((j : ℕ) (other : Vfd) → ¬ Other (refers_to_file arc) t n j other)
          → k' ≡ (sys.close_fd f.real_fd k).1)
  KernelAfter n t other k k' = k' ≡ k

  -- The result 0, the table without the descriptor, and the kernel.
  abbrev pub Closes : ℕ → ℕ → VfdTable → Vfd → Host K → ℤ × Host K → Type ℓ
  Closes n vpid t vfd h (result, h') =
      (result ≡ pos 0)
      × Without n t (get_table h'.fds vpid)
      × KernelAfter n t vfd h.kernel h'.kernel

  update_table-Without :
      (n vpid : ℕ) (t t' : VfdTable) (pipes : Pipes) (s : FdTables)
      → ((j : ℕ) → get t' j ≡ (if n == j then none else get t j))
      → Without n t (get_table (update_table vpid t' pipes s) vpid)
  unfolding get_table
  update_table-Without n vpid t t' pipes s reads =
      let there : lookup vpid (insert vpid t' s.tables) ≡ some t' =
        ground (arith, lookup-insert vpid vpid t' s.tables) in
      subst (Without n t) (sym there) reads

  KernelAfter-same :
      (n : ℕ) (t : VfdTable) (vfd : Vfd) (k : K)
      → ((arc : ℕ) (f : FileRef) → vfd ≢ file arc f)
      → KernelAfter n t vfd k k
  KernelAfter-same n t (real r) k other = refl
  KernelAfter-same n t (file arc f) k other = absurd (other arc f refl)
  KernelAfter-same n t (pipe_read p) k other = refl
  KernelAfter-same n t (pipe_write p) k other = refl

  other_Closes :
      (n vpid : ℕ) (t : VfdTable) (vfd : Vfd) (h : Host K)
      → n < 2 ^ 32
      → get t n ≡ some vfd
      → ((arc : ℕ) (f : FileRef) → vfd ≢ file arc f)
      → Closes n vpid t vfd h (close_in sys vpid t (pos n) h)
  other_Closes n vpid t vfd h small e other =
      let (result, t', pipes') = Table.close t n h.fds.pipes in
      let (same, next, reads) = close_reads t n h.fds.pipes in
      subst (Closes n vpid t vfd h) (sym (close_in-other n vpid t h small vfd e other)) (
        refl,
        update_table-Without n vpid t t' pipes' h.fds reads,
        KernelAfter-same n t vfd h.kernel other,
      )

  close_in-Closes :
      (n vpid : ℕ) (t : VfdTable) (vfd : Vfd) (h : Host K)
      → n < 2 ^ 32
      → Distinct t.fds
      → get t n ≡ some vfd
      → Closes n vpid t vfd h (close_in sys vpid t (pos n) h)
  close_in-Closes n vpid t (file arc f) h small d e = elim (Option-cases (close_file_fd t n).0) [
    | inl shared ↦
        subst (Closes n vpid t (file arc f) h)
          (sym (close_in-file_shared n vpid t h small arc f e shared))
          (refl, gone, ((λ j other o. refl), (λ lone. absurd (ground (arith, last.1 lone)))))
    | inr (r, only) ↦
        subst (Closes n vpid t (file arc f) h)
          (sym (close_in-file_last n vpid t h small arc f r e only))
          (
            refl,
            gone,
            (
              (λ j other o. absurd (ground (arith, last.0 j other o))),
              (λ lone. ground (arith, last.1 lone)),
            ),
          )
  ]
    where
      last :
          ((j : ℕ) (other : Vfd)
            → Other (refers_to_file arc) t n j other
            → (close_file_fd t n).0 ≡ none)
          × (((j : ℕ) (other : Vfd) → ¬ Other (refers_to_file arc) t n j other)
              → (close_file_fd t n).0 ≡ some f.real_fd)
      last = close_file_fd_last t n arc f d e

      gone :
          Without n t (get_table (update_table vpid (close_file_fd t n).1 h.fds.pipes h.fds) vpid)
      gone =
          update_table-Without n vpid t (close_file_fd t n).1 h.fds.pipes h.fds
            (close_file_fd_reads t n arc f e).1
  close_in-Closes n vpid t (real r) h small d e =
      other_Closes n vpid t (real r) h small e (λ arc f same. cc)
  close_in-Closes n vpid t (pipe_read p) h small d e =
      other_Closes n vpid t (pipe_read p) h small e (λ arc f same. cc)
  close_in-Closes n vpid t (pipe_write p) h small d e =
      other_Closes n vpid t (pipe_write p) h small e (λ arc f same. cc)

  -- On a descriptor of the running process that is open, `close` returns 0 and takes the descriptor from
  -- the table. Where it was a `File` and no other descriptor of the table holds the same `Arc`, the
  -- real descriptor is closed; where another does, or it was no `File`, the kernel is not called.
  pub close_lem :
      (mode : Mode) (n vpid : ℕ) (t : VfdTable) (vfd : Vfd) (h : Host K)
      → passes mode ≡ false
      → h.executor.current ≡ some vpid
      → get_table h.fds vpid ≡ some t
      → n < 2 ^ 32
      → Distinct t.fds
      → get t n ≡ some vfd
      → Closes n vpid t vfd h (Fds.close sys mode (pos n) h)
  close_lem mode n vpid t vfd h virtual running there small d e =
      subst (Closes n vpid t vfd h) (sym (close-close_in mode n vpid t h virtual running there))
        (close_in-Closes n vpid t vfd h small d e)
