-- ===== src/Vfd/Share/Dup.antt =====
-- `dup2`, `dup` and `insert_at`: what the descriptors hold afterwards, on every branch, and when
-- the table can go on handing out free descriptors.
use vproc.Prelude.{
  ℕ, ◌≡◌, ◌≢◌, refl, sym, none, some, arith, ◌==◌, leb, if◌then◌else◌, is_some, ok, err, inl, inr,
  Option-cases,
}
use mathlib.Core.Path.{subst}
use vproc.Prelude.Assoc.{lookup, insert, lookup-insert, lookup-remove}
use vproc.Prelude.Assoc.Distinct.{Distinct, insert-Distinct, remove-Distinct}
use vproc.Vfd.Table.{
  Vfd, real, file, pipe_read, pipe_write, Pipes, VfdTable, ebadf, get, close, close_if_open,
  insert_at, insert_vfd, next_u32, alloc_fd,
}
use vproc.Vfd.Table.Alloc.{IsValid, HasRoom, alloc_fd-IsValid, alloc_fd_lem, next_fd-alloc_fd-ne}
use vproc.Vfd.Table.Insert.{Adds}
use vproc.Vfd.Share.{clone_vfd, dup2, dup}

pub clone_vfd_lem : (vfd : Vfd) → clone_vfd vfd ≡ vfd
unfolding clone_vfd
clone_vfd_lem (real r) = refl
clone_vfd_lem (file arc f) = refl
clone_vfd_lem (pipe_read p) = refl
clone_vfd_lem (pipe_write p) = refl

pub close_if_open_reads :
    (t : VfdTable) (fd : ℕ) (pipes : Pipes)
    → let (t', pipes') = close_if_open t fd pipes in
      (t'.next_fd ≡ t.next_fd) × ((j : ℕ) → get t' j ≡ (if fd == j then none else get t j))
unfolding close_if_open close get
close_if_open_reads t fd pipes = (ground arith, λ j. ground (arith, lookup-remove fd j t.fds))

close_if_open-Distinct :
    (t : VfdTable) (fd : ℕ) (pipes : Pipes)
    → Distinct t.fds
    → Distinct (close_if_open t fd pipes).0.fds
unfolding close_if_open close
close_if_open-Distinct t fd pipes d = ground (arith, remove-Distinct fd t.fds d)

-- `dup2` on every branch. If the two descriptors differ and the old one is open, the new one now
-- holds the same entry and is returned. Otherwise the result is EBADF, and the new descriptor is
-- closed all the same: also where the two are one open descriptor. No other descriptor changes.
pub dup2_reads :
    (t : VfdTable) (old_fd new_fd : ℕ) (pipes : Pipes)
    → let (result, t', pipes') = dup2 t old_fd new_fd pipes in
      let source = (if new_fd == old_fd then none else get t old_fd) in
      (result ≡ (if is_some source then ok new_fd else err ebadf))
      × (t'.next_fd ≡ t.next_fd)
      × ((j : ℕ) → get t' j ≡ (if new_fd == j then source else get t j))
unfolding dup2 get
dup2_reads t old_fd new_fd pipes =
    let closed = (close_if_open t new_fd pipes).0 in
    let same = close_if_open_reads t new_fd pipes in
    elim (Option-cases (get closed old_fd)) [
      | inl absent ↦ (
        ground (arith, same.1 old_fd),
        ground (arith, same.0),
        λ j. ground (arith, same.1 old_fd, same.1 j),
      )
      | inr (vfd, found) ↦ (
        ground (arith, same.1 old_fd),
        ground (arith, same.0),
        λ j. ground (
          arith,
          same.1 old_fd,
          same.1 j,
          clone_vfd_lem vfd,
          lookup-insert new_fd j (clone_vfd vfd) closed.fds,
        ),
      )
    ]

dup2-Distinct :
    (t : VfdTable) (old_fd new_fd : ℕ) (pipes : Pipes)
    → Distinct t.fds
    → Distinct (dup2 t old_fd new_fd pipes).1.fds
unfolding dup2
dup2-Distinct t old_fd new_fd pipes d =
    let closed = (close_if_open t new_fd pipes).0 in
    let left = close_if_open-Distinct t new_fd pipes d in
    let fds = (dup2 t old_fd new_fd pipes).1.fds in
    elim (Option-cases (lookup old_fd closed.fds)) [
      | inl absent ↦ let same : fds ≡ closed.fds = ground arith in subst Distinct (sym same) left
      | inr (vfd, found) ↦
          let grown : fds ≡ insert new_fd (clone_vfd vfd) closed.fds = ground arith in
          subst Distinct (sym grown) (insert-Distinct new_fd (clone_vfd vfd) closed.fds left)
    ]

-- `dup2` keeps a table valid unless its target is the descriptor that comes next.
pub dup2-IsValid :
    (t : VfdTable) (old_fd new_fd : ℕ) (pipes : Pipes)
    → IsValid t
    → new_fd ≢ t.next_fd
    → IsValid (dup2 t old_fd new_fd pipes).1
unfolding get
dup2-IsValid t old_fd new_fd pipes v ne =
    let (result, next, reads) = dup2_reads t old_fd new_fd pipes in
    record {
      fresh = ground (arith, reads t.next_fd);
      next_in = rw next v.next_in;
      distinct = dup2-Distinct t old_fd new_fd pipes v.distinct;
    }

dup_lem :
    (t : VfdTable) (old_fd : ℕ) (pipes : Pipes)
    → dup t old_fd pipes ≡ dup2 (alloc_fd t).1 old_fd t.next_fd pipes
unfolding dup
dup_lem t old_fd pipes = refl

-- `dup` of an open descriptor of a valid table with room left returns a free descriptor, which
-- then holds the same entry; every other descriptor reads as before, and the table stays valid.
pub dup-Adds :
    (t : VfdTable) (old_fd : ℕ) (vfd : Vfd) (pipes : Pipes)
    → IsValid t
    → HasRoom t
    → get t old_fd ≡ some vfd
    → let (result, t', pipes') = dup t old_fd pipes in
      (result ≡ ok t.next_fd) × Adds t vfd (t.next_fd, t')
unfolding get
dup-Adds t old_fd vfd pipes v room h =
    let t' = (alloc_fd t).1 in
    let same : t'.fds ≡ t.fds = (alloc_fd_lem t).1 in
    let (result, next, reads) = dup2_reads t' old_fd t.next_fd pipes in
    let v' =
      dup2-IsValid t' old_fd t.next_fd pipes (alloc_fd-IsValid t v room)
        (λ e. next_fd-alloc_fd-ne t v.next_in room (sym e)) in
    rw dup_lem
      (ground arith, record { free = v.fresh; reads = λ j. ground (arith, reads j); valid = v' })

-- `insert_at` puts the entry at its descriptor, open or not, and no other descriptor changes.
pub insert_at_reads :
    (t : VfdTable) (fd : ℕ) (vfd : Vfd) (pipes : Pipes) (j : ℕ)
    → get (insert_at t fd vfd pipes).0 j ≡ (if fd == j then some vfd else get t j)
unfolding insert_at get
insert_at_reads t fd vfd pipes j =
    let closed = (close_if_open t fd pipes).0 in
    let same = close_if_open_reads t fd pipes in
    ground (arith, same.1 j, lookup-insert fd j vfd closed.fds)

-- After `insert_at` at or past the next free descriptor, the descriptor that the table hands out
-- next is the one after it, free or not.
pub next_fd-insert_at :
    (t : VfdTable) (fd : ℕ) (vfd : Vfd) (pipes : Pipes)
    → (insert_at t fd vfd pipes).0.next_fd ≡ (if leb t.next_fd fd then next_u32 fd else t.next_fd)
unfolding insert_at
next_fd-insert_at t fd vfd pipes = ground (arith, (close_if_open_reads t fd pipes).0)

-- When `dup2` has copied an open descriptor onto the number that `next_fd` holds, the next `insert`
-- returns that same number, and its entry replaces the copy.
pub insert-dup2_overwrites :
    (t : VfdTable) (old_fd : ℕ) (vfd new : Vfd) (pipes : Pipes)
    → old_fd ≢ t.next_fd
    → get t old_fd ≡ some vfd
    → let (result, t', pipes') = dup2 t old_fd t.next_fd pipes in
      (result ≡ ok t.next_fd)
      × (get t' t.next_fd ≡ some vfd)
      × ((insert_vfd t' new).0 ≡ t.next_fd)
      × (get (insert_vfd t' new).1 t.next_fd ≡ some new)
unfolding insert_vfd get
insert-dup2_overwrites t old_fd vfd new pipes ne h =
    let t' = (dup2 t old_fd t.next_fd pipes).1 in
    let (result, next, reads) = dup2_reads t old_fd t.next_fd pipes in
    (
      ground arith,
      ground (arith, reads t.next_fd),
      ground arith,
      ground (arith, lookup-insert t'.next_fd t.next_fd new t'.fds),
    )
