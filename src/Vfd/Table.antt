-- ===== src/Vfd/Table.antt =====
-- `Vfd`, `FileRef` and `VfdTable` of src/vfd.rs. An `Arc` is an allocation number: two are
-- `ptr_eq` when the numbers are equal. A `FileRef` never changes and stands beside its number;
-- the pipe buffers, which are shared and change, stand in a heap that the methods take and return.
pub mod Alloc
pub mod Insert
pub mod Close
use vproc.Prelude.{
  ℕ, zero, suc, ◌+◌, ◌%◌, ◌^◌, List, [], ◌∷◌, ◌++◌, Bool, true, false, ◌&&◌, ◌||◌, not, Option,
  none, some, map, ◌==◌, leb, if◌then◌else◌, length, any, modify_at, contains, Result, ok, err,
}
use vproc.Prelude.Int.{ℤ, pos}
use vproc.Prelude.Assoc.{Assoc, lookup, insert, remove, contains_key, any_value}
use vproc.Vfd.Pipe
use vproc.Vfd.Pipe.{PipeBuffer}

pub record FileRef : Type 0 where
  pub real_fd : ℤ
  pub cloexec : Bool

pub data Vfd : Type 0 where
  real : ℤ → Vfd
  file : ℕ → FileRef → Vfd
  pipe_read : ℕ → Vfd
  pipe_write : ℕ → Vfd

-- The buffers behind all `Arc<PipeBuffer>`s, by allocation number.
abbrev pub Pipes : Type 0
Pipes = List PipeBuffer

pub record VfdTable : Type 0 where
  pub fds : Assoc Vfd
  pub next_fd : ℕ

abbrev pub ebadf : ℕ
ebadf = 9

-- `VfdTable::new_with_fds`
unfoldable pub new_with_fds : ℤ → ℤ → ℤ → VfdTable
unfolding insert
new_with_fds stdin stdout stderr = record {
  fds = insert 2 (real stderr) (insert 1 (real stdout) (insert 0 (real stdin) []));
  next_fd = 3;
}

-- `VfdTable::new`
unfoldable pub new : VfdTable
unfolding insert
new = record {
  fds = insert 2 (real (pos 2)) (insert 1 (real (pos 1)) (insert 0 (real (pos 0)) []));
  next_fd = 3;
}

-- One match of `get_real_fds_012`.
unfoldable pub real_fd_of : Option Vfd → Option ℤ
real_fd_of (some (real r)) = some r
real_fd_of (some (file arc f)) = some f.real_fd
real_fd_of other = none

unfoldable pub get_real_fds_012 : VfdTable → Option (ℤ × ℤ × ℤ)
unfolding real_fd_of
get_real_fds_012 t = elim (real_fd_of (lookup 0 t.fds)) [
  | none ↦ none
  | some fd0 ↦ elim (real_fd_of (lookup 1 t.fds)) [
    | none ↦ none
    | some fd1 ↦ elim (real_fd_of (lookup 2 t.fds)) [
      | none ↦ none
      | some fd2 ↦ some (fd0, fd1, fd2)
    ]
  ]
]

-- `+= 1` on a `u32`.
abbrev pub next_u32 : ℕ → ℕ
next_u32 n = (n + 1) % 2 ^ 32

-- `while self.fds.contains_key(&self.next_fd) { self.next_fd += 1; }`, on fuel.
unfoldable pub skip_used : ℕ → Assoc Vfd → ℕ → ℕ
skip_used zero fds n = n
skip_used (suc fuel) fds n =
    let rest = skip_used fuel fds (next_u32 n) in if contains_key n fds then rest else n

-- One round more than there are descriptors is enough fuel.
unfoldable pub alloc_fd : VfdTable → ℕ × VfdTable
unfolding skip_used
alloc_fd t =
    (t.next_fd, record t { next_fd = skip_used (length t.fds + 1) t.fds (next_u32 t.next_fd) })

-- `VfdTable::insert`
unfoldable pub insert_vfd : VfdTable → Vfd → ℕ × VfdTable
unfolding alloc_fd
insert_vfd t vfd = let (fd, t') = alloc_fd t in (fd, record t' { fds = insert fd vfd t'.fds })

unfoldable pub get : VfdTable → ℕ → Option Vfd
get t fd = lookup fd t.fds

-- `Vfd::PipeRead(a) | Vfd::PipeWrite(a) => Arc::ptr_eq(a, &arc)`
unfoldable pub refers_to_pipe : ℕ → Vfd → Bool
refers_to_pipe p (pipe_read a) = a == p
refers_to_pipe p (pipe_write a) = a == p
refers_to_pipe p other = false

unfoldable pub refers_to_file : ℕ → Vfd → Bool
refers_to_file arc (file a f) = a == arc
refers_to_file arc other = false

-- The arm of `close` for a pipe, after the removal: `rest` are the descriptors left.
unfoldable pub close_unreferenced : ℕ → Assoc Vfd → Pipes → Pipes
unfolding refers_to_pipe
close_unreferenced p rest pipes =
    if any_value (refers_to_pipe p) rest then pipes else modify_at pipes p Pipe.close

unfoldable pub closed_pipes : Vfd → Assoc Vfd → Pipes → Pipes
unfolding close_unreferenced
closed_pipes (pipe_read p) rest pipes = close_unreferenced p rest pipes
closed_pipes (pipe_write p) rest pipes = close_unreferenced p rest pipes
closed_pipes other rest pipes = pipes

-- `VfdTable::close`
unfoldable pub close : VfdTable → ℕ → Pipes → Result ℕ (Unit {0}) × VfdTable × Pipes
unfolding closed_pipes
close t fd pipes = elim (lookup fd t.fds) [
  | none ↦ (err ebadf, t, pipes)
  | some vfd ↦
      let rest = remove fd t.fds in (ok tt, record t { fds = rest }, closed_pipes vfd rest pipes)
]

-- `if self.fds.contains_key(&fd) { let _ = self.close(fd); }`
unfoldable pub close_if_open : VfdTable → ℕ → Pipes → VfdTable × Pipes
unfolding close
close_if_open t fd pipes =
    if contains_key fd t.fds
    then (let (result, t', pipes') = close t fd pipes in (t', pipes'))
    else (t, pipes)

unfoldable pub insert_at : VfdTable → ℕ → Vfd → Pipes → VfdTable × Pipes
unfolding close_if_open
insert_at t fd vfd pipes =
    let (t', pipes') = close_if_open t fd pipes in
    (
      record {
        fds = insert fd vfd t'.fds;
        next_fd = if leb t'.next_fd fd then next_u32 fd else t'.next_fd;
      },
      pipes',
    )

-- `arc` is the number of the new `Arc<FileRef>`.
unfoldable pub insert_file : VfdTable → ℕ → ℤ → Bool → ℕ × VfdTable
unfolding alloc_fd
insert_file t arc real_fd cloexec =
    let (fd, t') = alloc_fd t in
    let ref : FileRef = record { real_fd = real_fd; cloexec = cloexec } in
    (fd, record t' { fds = insert fd (file arc ref) t'.fds })

unfoldable pub close_file_fd : VfdTable → ℕ → Option ℤ × VfdTable
unfolding refers_to_file
close_file_fd t fd = elim (lookup fd t.fds) [
  | some (file arc f) ↦
      let rest = remove fd t.fds in
      (
        (if any_value (refers_to_file arc) rest then none else some f.real_fd),
        record t { fds = rest },
      )
  | other ↦ (none, t)
]
