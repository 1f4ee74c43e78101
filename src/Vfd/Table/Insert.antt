-- ===== src/Vfd/Table/Insert.antt =====
-- `insert` and `insert_file`: a new descriptor replaces none that is open.
use vproc.Prelude.{ℕ, ◌≡◌, Bool, none, some, arith, ◌==◌, if◌then◌else◌}
use vproc.Prelude.Int.{ℤ}
use vproc.Prelude.Assoc.{insert, lookup-insert}
use vproc.Prelude.Assoc.Distinct.{insert-Distinct}
use vproc.Vfd.Table.{Vfd, file, FileRef, VfdTable, alloc_fd, insert_vfd, insert_file, get}
use vproc.Vfd.Table.Alloc.{
  IsValid, HasRoom, alloc_fd-IsFresh, next_fd-alloc_fd-ne, next_fd-alloc_fd-lt,
}

-- What a table hands out for a new entry: a descriptor that was free, which now holds the entry,
-- while every other reads as before.
pub record Adds (t : VfdTable) (vfd : Vfd) (out : ℕ × VfdTable) : Type 0 where
  pub free : get t out.0 ≡ none
  pub reads : (j : ℕ) → get out.1 j ≡ (if out.0 == j then some vfd else get t j)
  pub valid : IsValid out.1

-- The table after `alloc_fd` and an insertion at the descriptor that it handed out.
filled-IsValid :
    (t : VfdTable) (vfd : Vfd)
    → IsValid t
    → HasRoom t
    → let (fd, t') = alloc_fd t in IsValid (record t' { fds = insert fd vfd t'.fds })
unfolding alloc_fd
filled-IsValid t vfd v room = record {
  fresh = ground (
    arith,
    lookup-insert t.next_fd (alloc_fd t).1.next_fd vfd t.fds,
    alloc_fd-IsFresh t (omega arith),
    next_fd-alloc_fd-ne t v.next_in room,
  );
  next_in = next_fd-alloc_fd-lt t;
  distinct = insert-Distinct t.next_fd vfd t.fds v.distinct;
}

-- `insert` on a valid table with room left returns a free descriptor, stores the entry there,
-- leaves every other descriptor as it was, and keeps the table valid.
pub insert_vfd-Adds :
    (t : VfdTable) (vfd : Vfd) → IsValid t → HasRoom t → Adds t vfd (insert_vfd t vfd)
unfolding insert_vfd get
insert_vfd-Adds t vfd v room = record {
  free = v.fresh;
  reads = λ j. lookup-insert t.next_fd j vfd t.fds;
  valid = filled-IsValid t vfd v room;
}

-- `insert_file` does so with a `File` entry of the given real descriptor and flag.
pub insert_file-Adds :
    (t : VfdTable) (arc : ℕ) (real_fd : ℤ) (cloexec : Bool)
    → IsValid t
    → HasRoom t
    → Adds t
        (file arc (record { real_fd = real_fd; cloexec = cloexec }))
        (insert_file t arc real_fd cloexec)
unfolding insert_file get
insert_file-Adds t arc real_fd cloexec v room =
    let ref : FileRef = record { real_fd = real_fd; cloexec = cloexec } in
    record {
      free = v.fresh;
      reads = λ j. lookup-insert t.next_fd j (file arc ref) t.fds;
      valid = filled-IsValid t (file arc ref) v room;
    }
