-- ===== src/Vfd/Share.antt =====
-- The methods of `VfdTable` in src/vfd.rs by which descriptors come to share what they refer to,
-- and those that let go of many at once: `dup`, `dup2`, `create_pipe`, `clone_for_fork`,
-- `close_cloexec` and `drop`. The buffers stand in a heap, as in `Table`.
pub mod Dup
pub mod NewPipe
pub mod Fork
pub mod Drop
use vproc.Prelude.{
  ℕ, List, [], ◌∷◌, ◌++◌, Bool, true, false, Option, none, some, map, if◌then◌else◌, length, retain,
  modify_at, contains, Result, ok, err,
}
use vproc.Prelude.Int.{ℤ}
use vproc.Prelude.Assoc.{Assoc, lookup, insert}
use vproc.Vfd.Pipe
use vproc.Vfd.Table.{
  Vfd, real, file, pipe_read, pipe_write, FileRef, Pipes, VfdTable, ebadf, alloc_fd, close_if_open,
  close_file_fd,
}

-- `matches!(vfd, Vfd::File(f) if f.cloexec)`
unfoldable pub is_cloexec : Vfd → Bool
is_cloexec (file arc f) = f.cloexec
is_cloexec other = false

-- The loop of `close_cloexec` over the collected descriptors: the real descriptors to close.
unfoldable pub close_files : List ℕ → VfdTable → List ℤ × VfdTable
close_files [] t = ([], t)
close_files (fd ∷ fds) t =
    let (closed, t') = close_file_fd t fd in
    let (rest, end) = close_files fds t' in
    elim closed [ none ↦ (rest, end) | some rfd ↦ (rfd ∷ rest, end) ]

unfoldable pub cloexec_fds : Assoc Vfd → List ℕ
unfolding is_cloexec
cloexec_fds fds = map (λ e. e.0) (retain (λ e. is_cloexec e.1) fds)

unfoldable pub close_cloexec : VfdTable → List ℤ × VfdTable
unfolding close_files cloexec_fds
close_cloexec t = close_files (cloexec_fds t.fds) t

-- The `match` that clones a `Vfd`, which clones its `Arc`.
unfoldable pub clone_vfd : Vfd → Vfd
clone_vfd (real fd) = real fd
clone_vfd (file arc f) = file arc f
clone_vfd (pipe_read p) = pipe_read p
clone_vfd (pipe_write p) = pipe_write p

unfoldable pub dup2 : VfdTable → ℕ → ℕ → Pipes → Result ℕ ℕ × VfdTable × Pipes
unfolding clone_vfd close_if_open
dup2 t old_fd new_fd pipes =
    let (t', pipes') = close_if_open t new_fd pipes in
    elim (lookup old_fd t'.fds) [
      | some vfd ↦ (ok new_fd, record t' { fds = insert new_fd (clone_vfd vfd) t'.fds }, pipes')
      | none ↦ (err ebadf, t', pipes')
    ]

unfoldable pub dup : VfdTable → ℕ → Pipes → Result ℕ ℕ × VfdTable × Pipes
unfolding dup2 alloc_fd
dup t old_fd pipes = let (new_fd, t') = alloc_fd t in dup2 t' old_fd new_fd pipes

-- Returns the two descriptors, the table and the heap with the new buffer at its end.
unfoldable pub create_pipe : VfdTable → Pipes → (ℕ × ℕ) × VfdTable × Pipes
unfolding alloc_fd
create_pipe t pipes =
    let arc = length pipes in
    let (read_fd, t') = alloc_fd t in
    let (write_fd, t'') = alloc_fd t' in
    (
      (read_fd, write_fd),
      record t'' {
        fds = insert write_fd (pipe_write arc) (insert read_fd (pipe_read arc) t''.fds);
      },
      pipes ++ Pipe.new ∷ [],
    )

-- The loop of `clone_for_fork`.
unfoldable pub clone_into : Assoc Vfd → Assoc Vfd → Assoc Vfd
unfolding clone_vfd
clone_into [] cloned = cloned
clone_into ((fd_num, vfd) ∷ fds) cloned = clone_into fds (insert fd_num (clone_vfd vfd) cloned)

unfoldable pub clone_for_fork : VfdTable → VfdTable
unfolding clone_into
clone_for_fork t = record { fds = clone_into t.fds []; next_fd = t.next_fd }

-- The `match` of `drop`: the buffer of a pipe descriptor.
unfoldable pub pipe_of : Vfd → Option ℕ
pipe_of (pipe_read p) = some p
pipe_of (pipe_write p) = some p
pipe_of other = none

-- The loop of `drop`, which closes each buffer once.
unfoldable pub drop_loop : Assoc Vfd → List ℕ → Pipes → Pipes
unfolding pipe_of
drop_loop [] seen pipes = pipes
drop_loop ((fd, vfd) ∷ fds) seen pipes =
    let skip = drop_loop fds seen pipes in
    elim (pipe_of vfd) [
      | none ↦ skip
      | some p ↦
          let closing = drop_loop fds (p ∷ seen) (modify_at pipes p Pipe.close) in
          if contains p seen then skip else closing
    ]

-- `impl Drop for VfdTable`
unfoldable pub drop_table : VfdTable → Pipes → Pipes
unfolding drop_loop
drop_table t pipes = drop_loop t.fds [] pipes
