-- ===== src/Vfd/Tables/Isolation.antt =====
-- The table storage: what a fork shares.
use vproc.Prelude.{ℕ, ◌≡◌, ◌≢◌, ◌∙◌, none, some, arith, get_elem?}
use vproc.Prelude.Assoc.{insert, remove, lookup-insert, lookup-remove}
use vproc.Vfd.Pipe
use vproc.Vfd.Pipe.{PipeBuffer}
use vproc.Vfd.Table.{Vfd, VfdTable, get}
use vproc.Vfd.Table.Alloc.{IsValid}
use vproc.Vfd.Table.Close.{IsPipeEnd}
use vproc.Vfd.Share.{clone_for_fork, drop_table}
use vproc.Vfd.Share.Fork.{clone_for_fork_reads}
use vproc.Vfd.Share.Drop.{drop_table_closes}
use vproc.Vfd.Tables.{FdTables, get_table, fork_fd_table, remove_table}

-- After a fork of a process with a valid table the child has a valid table of its own that reads
-- like the parent's at every descriptor.
pub fork_fd_table_reads :
    (s : FdTables) (parent child : ℕ) (t : VfdTable)
    → get_table s parent ≡ some t
    → IsValid t
    → get_table (fork_fd_table s parent child) child ≡ some (clone_for_fork t)
      × ((fd : ℕ) → get (clone_for_fork t) fd ≡ get t fd)
      × IsValid (clone_for_fork t)
unfolding get_table fork_fd_table
fork_fd_table_reads s parent child t h v =
    let (reads, next, valid) = clone_for_fork_reads t v in
    (ground (arith, lookup-insert child child (clone_for_fork t) s.tables), reads, valid)

fork-remove_lem :
    (s : FdTables) (parent child : ℕ) (t : VfdTable)
    → get_table s child ≡ none
    → get_table s parent ≡ some t
    → remove_table (fork_fd_table s parent child) child ≡ record {
      tables = remove child (insert child (clone_for_fork t) s.tables);
      pipes = drop_table (clone_for_fork t) s.pipes;
    }
unfolding get_table fork_fd_table remove_table
fork-remove_lem s parent child t fresh h =
    ground (arith, lookup-insert child child (clone_for_fork t) s.tables)

-- When a child that had no table is forked from a parent with a valid table, and the child's table
-- is then removed, every buffer that the parent has an end of is closed, though the parent's table
-- is as it was.
pub fork-remove_closes :
    (s : FdTables) (parent child : ℕ) (t : VfdTable) (fd p : ℕ) (vfd : Vfd) (b : PipeBuffer)
    → parent ≢ child
    → get_table s child ≡ none
    → get_table s parent ≡ some t
    → IsValid t
    → get t fd ≡ some vfd
    → IsPipeEnd p vfd
    → get_elem? s.pipes p ≡ some b
    → let s' = remove_table (fork_fd_table s parent child) child in
      (get_table s' parent ≡ some t) × (get_elem? s'.pipes p ≡ some (Pipe.close b))
unfolding get_table
fork-remove_closes s parent child t fd p vfd b ne fresh h v found end hb =
    let c = clone_for_fork t in
    let (reads, next, valid) = clone_for_fork_reads t v in
    rw (fork-remove_lem s parent child t fresh h) (
      ground (
        arith,
        lookup-remove child parent (insert child c s.tables),
        lookup-insert child parent c s.tables,
      ),
      (drop_table_closes c s.pipes p b valid.distinct hb).0 fd vfd (reads fd ∙ found) end,
    )
