-- ===== src/Vfd/Table/Close.antt =====
-- `close` and `close_file_fd`: what is removed, what stays, and when what lay behind is let go.
use vproc.Prelude.{
  ℕ, ◌≡◌, ◌≢◌, sym, ◌∙◌, Bool, true, false, none, some, arith, ◌==◌, if◌then◌else◌, inl, inr, ok,
  err, Bool-cases,
}
use vproc.Prelude.Assoc.{
  remove, lookup-remove, any_value, any_value-lookup, contains_key, lookup-remove_ne,
}
use vproc.Prelude.Assoc.Distinct.{Distinct, remove-Distinct, any_value-witness}
use vproc.Vfd.Pipe
use vproc.Vfd.Pipe.{PipeBuffer}
use vproc.Vfd.Table.Alloc.{IsValid}
use vproc.Vfd.Table.{
  Vfd, file, FileRef, Pipes, VfdTable, ebadf, get, refers_to_pipe, refers_to_file, close,
  close_file_fd,
}

-- `close` fails with EBADF, and changes nothing, exactly when the descriptor is not open;
-- otherwise the descriptor is gone and every other reads as before.
pub close_reads :
    (t : VfdTable) (fd : ℕ) (pipes : Pipes)
    → let (result, t', pipes') = close t fd pipes in
      (result ≡ (if contains_key fd t.fds then ok tt else err ebadf))
      × (t'.next_fd ≡ t.next_fd)
      × ((j : ℕ) → get t' j ≡ (if fd == j then none else get t j))
unfolding close get
close_reads t fd pipes = (ground arith, ground arith, λ j. ground (arith, lookup-remove fd j t.fds))

-- A descriptor of a pipe: a read or a write end of the buffer `p`.
abbrev pub IsPipeEnd : ℕ → Vfd → Type 0
IsPipeEnd p vfd = refers_to_pipe p vfd ≡ true

-- A descriptor other than `fd` whose entry passes a test.
abbrev pub Other : (Vfd → Bool) → VfdTable → ℕ → ℕ → Vfd → Type 0
Other q t fd j vfd = (j ≢ fd) × (get t j ≡ some vfd) × (q vfd ≡ true)

module _ (q : Vfd → Bool) (t : VfdTable) (fd : ℕ) where
  -- The test `still_referenced` finds what other descriptors hold, and nothing else.
  any_value-Other : (j : ℕ) (vfd : Vfd) → Other q t fd j vfd → any_value q (remove fd t.fds) ≡ true
  unfolding get
  any_value-Other j vfd (ne, found, e) =
      any_value-lookup q j vfd (remove fd t.fds)
        (lookup-remove_ne fd j t.fds (λ same. ne (sym same)) ∙ found) e

  none_left :
      Distinct t.fds
      → ((j : ℕ) (vfd : Vfd) → ¬ Other q t fd j vfd)
      → any_value q (remove fd t.fds) ≡ false
  unfolding get
  none_left d lone = elim (Bool-cases (any_value q (remove fd t.fds))) [
    | inl left ↦
        let rest = remove fd t.fds in
        let (j, vfd, found, e) = any_value-witness q rest (remove-Distinct fd t.fds d) left in
        absurd (
          lone j vfd
            (ground (arith, lookup-remove fd j t.fds), ground (arith, lookup-remove fd j t.fds), e))
    | inr gone ↦ gone
  ]

-- `close_file_fd` on a `File` removes the descriptor and no other.
pub close_file_fd_reads :
    (t : VfdTable) (fd arc : ℕ) (f : FileRef)
    → get t fd ≡ some (file arc f)
    → let (closed, t') = close_file_fd t fd in
      (t'.next_fd ≡ t.next_fd) × ((j : ℕ) → get t' j ≡ (if fd == j then none else get t j))
unfolding close_file_fd get
close_file_fd_reads t fd arc f h = (ground arith, λ j. ground (arith, lookup-remove fd j t.fds))

close_file_fd_result :
    (t : VfdTable) (fd arc : ℕ) (f : FileRef)
    → get t fd ≡ some (file arc f)
    → (close_file_fd t fd).0
      ≡ (if any_value (refers_to_file arc) (remove fd t.fds) then none else some f.real_fd)
unfolding close_file_fd get
close_file_fd_result t fd arc f h = ground arith

-- `close_file_fd` on a `File` hands out its real descriptor when no other descriptor of a table
-- with distinct descriptors holds the same `Arc`, and none when another does.
pub close_file_fd_last :
    (t : VfdTable) (fd arc : ℕ) (f : FileRef)
    → Distinct t.fds
    → get t fd ≡ some (file arc f)
    → ((j : ℕ) (other : Vfd)
        → Other (refers_to_file arc) t fd j other
        → (close_file_fd t fd).0 ≡ none)
      × (((j : ℕ) (other : Vfd) → ¬ Other (refers_to_file arc) t fd j other)
          → (close_file_fd t fd).0 ≡ some f.real_fd)
close_file_fd_last t fd arc f d h = (
  λ j other o.
      close_file_fd_result t fd arc f h ∙ rw (any_value-Other (refers_to_file arc) t fd j other o),
  λ lone. close_file_fd_result t fd arc f h ∙ rw (none_left (refers_to_file arc) t fd d lone),
)

-- Both closings keep a table valid, since they free descriptors only.
pub close-IsValid :
    (t : VfdTable) (fd : ℕ) (pipes : Pipes) → IsValid t → IsValid (close t fd pipes).1
unfolding close
close-IsValid t fd pipes v =
    ground (arith, lookup-remove fd t.next_fd t.fds, remove-Distinct fd t.fds v.distinct)
