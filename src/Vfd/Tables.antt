-- ===== src/Vfd/Tables.antt =====
-- The table storage of src/vfd.rs, keyed by virtual process. A null `FD_TABLES_PTR` and a pointer to
-- an empty map act alike (`get_tables_ptr` makes the one into the other), so the state holds the map
-- alone, with the heap of pipe buffers that the tables refer to. A table that leaves the map is
-- dropped.
pub mod Isolation
pub mod Reclaim
pub mod Sole
use vproc.Prelude.{
  ℕ, suc, ◌+◌, List, [], ◌∷◌, ◌++◌, Bool, true, false, ◌||◌, not, Option, none, some, ◌==◌,
  if◌then◌else◌, any, contains,
}
use vproc.Prelude.Int.{ℤ, ◌==ℤ◌}
use vproc.Prelude.Assoc.{Assoc, lookup, insert, remove}
use vproc.Vfd.Table
use vproc.Vfd.Table.{Vfd, real, file, pipe_read, pipe_write, FileRef, Pipes, VfdTable}
use vproc.Vfd.Table.{refers_to_file, get_real_fds_012}
use vproc.Vfd.Share.{clone_for_fork, drop_table}

pub record FdTables : Type 0 where
  pub tables : Assoc VfdTable
  pub pipes : Pipes

unfoldable pub get_table : FdTables → ℕ → Option VfdTable
get_table s vpid = lookup vpid s.tables

-- `HashMap::insert`, which drops the table that it replaces.
unfoldable pub put_table : FdTables → ℕ → VfdTable → FdTables
put_table s vpid t = record {
  tables = insert vpid t s.tables;
  pipes = elim (lookup vpid s.tables) [ none ↦ s.pipes | some old ↦ drop_table old s.pipes ];
}

-- The table, which is in the new state.
unfoldable pub get_or_create_table : FdTables → ℕ → VfdTable × FdTables
get_or_create_table s vpid = elim (lookup vpid s.tables) [
  | some t ↦ (t, s)
  | none ↦ (Table.new, record s { tables = insert vpid Table.new s.tables })
]

unfoldable pub fork_fd_table : FdTables → ℕ → ℕ → FdTables
unfolding put_table
fork_fd_table s parent_vpid child_vpid =
    let child_table : VfdTable = elim (lookup parent_vpid s.tables) [
      | some parent_table ↦ clone_for_fork parent_table
      | none ↦ Table.new
    ] in
    put_table s child_vpid child_table

unfoldable pub remove_table : FdTables → ℕ → FdTables
remove_table s vpid = elim (lookup vpid s.tables) [
  | none ↦ s
  | some t ↦ record { tables = remove vpid s.tables; pipes = drop_table t s.pipes }
]

-- How many of the descriptors hold the `Arc`.
unfoldable pub count_in : ℕ → Assoc Vfd → ℕ
unfolding refers_to_file
count_in arc [] = 0
count_in arc ((fd, vfd) ∷ fds) = (if refers_to_file arc vfd then 1 else 0) + count_in arc fds

-- `Arc::strong_count`: only tables hold an `Arc<FileRef>` between calls.
unfoldable pub strong_count : ℕ → Assoc VfdTable → ℕ
unfolding count_in
strong_count arc [] = 0
strong_count arc ((vpid, t) ∷ tables) = count_in arc t.fds + strong_count arc tables

-- `seen_real.contains(fd)`
abbrev pub contains_ℤ : ℤ → List ℤ → Bool
contains_ℤ a xs = any (λ x. x ==ℤ a) xs

-- The loop of `remove_table_and_get_fds`: the descriptors for the caller to close.
unfoldable pub collect_loop : Assoc VfdTable → Assoc Vfd → List ℤ → List ℕ → List ℤ
unfolding strong_count
collect_loop tables [] seen_real seen_file = []
collect_loop tables ((fd, real r) ∷ fds) seen_real seen_file =
    let skip = collect_loop tables fds seen_real seen_file in
    let take = r ∷ collect_loop tables fds (r ∷ seen_real) seen_file in
    if contains_ℤ r seen_real then skip else take
collect_loop tables ((fd, file arc f) ∷ fds) seen_real seen_file =
    let skip = collect_loop tables fds seen_real seen_file in
    let rest = collect_loop tables fds seen_real (arc ∷ seen_file) in
    if contains arc seen_file
    then skip
    else (if strong_count arc tables == 1 then f.real_fd ∷ rest else rest)
collect_loop tables ((fd, pipe_read p) ∷ fds) seen_real seen_file =
    collect_loop tables fds seen_real seen_file
collect_loop tables ((fd, pipe_write p) ∷ fds) seen_real seen_file =
    collect_loop tables fds seen_real seen_file

unfoldable pub remove_table_and_get_fds : FdTables → ℕ → List ℤ × FdTables
unfolding collect_loop
remove_table_and_get_fds s vpid = elim (lookup vpid s.tables) [
  | none ↦ ([], s)
  | some t ↦ (
    collect_loop s.tables t.fds [] [],
    record { tables = remove vpid s.tables; pipes = drop_table t s.pipes },
  )
]

-- Drops all tables.
unfoldable pub drop_all : Assoc VfdTable → Pipes → Pipes
drop_all [] pipes = pipes
drop_all ((vpid, t) ∷ tables) pipes = drop_all tables (drop_table t pipes)

unfoldable pub cleanup : FdTables → FdTables
unfolding drop_all
cleanup s = record { tables = []; pipes = drop_all s.tables s.pipes }

unfoldable pub create_table_with_fds : FdTables → ℕ → ℤ → ℤ → ℤ → FdTables
unfolding put_table
create_table_with_fds s vpid stdin stdout stderr =
    put_table s vpid (Table.new_with_fds stdin stdout stderr)

unfoldable pub get_real_fds : FdTables → ℕ → Option (ℤ × ℤ × ℤ)
unfolding get_table
get_real_fds s vpid = elim (get_table s vpid) [ none ↦ none | some t ↦ get_real_fds_012 t ]
