-- ===== src/Vfd/Share/NewPipe.antt =====
-- `create_pipe`: two free descriptors for the two ends of a new, empty buffer.
use vproc.Prelude.{
  ℕ, ◌<◌, ◌≡◌, ◌≢◌, sym, [], ◌∷◌, none, some, arith, ◌==◌, if◌then◌else◌, length, get_elem?,
  get_elem?-append_left, get_elem?-append_end,
}
use vproc.Prelude.Assoc.{insert, lookup-insert}
use vproc.Vfd.Pipe
use vproc.Vfd.Table.{pipe_read, pipe_write, Pipes, VfdTable, get, alloc_fd}
use vproc.Vfd.Table.Alloc.{IsValid, HasRoom, alloc_fd-IsFresh, next_fd-alloc_fd-ne}
use vproc.Vfd.Share.{create_pipe}

-- `create_pipe` on a valid table with room left returns two different descriptors that were free;
-- they hold the read and the write end of one buffer, which is new and stands behind the buffers
-- there were, and these and all other descriptors are as before.
pub create_pipe_lem :
    (t : VfdTable) (pipes : Pipes)
    → IsValid t
    → HasRoom t
    → let ((read_fd, write_fd), t', pipes') = create_pipe t pipes in
      let arc = length pipes in
      (read_fd ≢ write_fd)
      × (get t read_fd ≡ none)
      × (get t write_fd ≡ none)
      × ((j : ℕ)
          → get t' j ≡ (
              if write_fd == j
              then some (pipe_write arc)
              else if read_fd == j
              then some (pipe_read arc)
              else get t j))
      × (get_elem? pipes' arc ≡ some Pipe.new)
      × ((q : ℕ) → q < arc → get_elem? pipes' q ≡ get_elem? pipes q)
unfolding create_pipe get
create_pipe_lem t pipes v room =
    let t' = (alloc_fd t).1 in
    (
      λ e. next_fd-alloc_fd-ne t v.next_in room (sym e),
      v.fresh,
      alloc_fd-IsFresh t (omega arith),
      λ j. ground (
        arith,
        lookup-insert t.next_fd j (pipe_read (length pipes)) t.fds,
        lookup-insert t'.next_fd j (pipe_write (length pipes))
            (insert t.next_fd (pipe_read (length pipes)) t.fds),
      ),
      get_elem?-append_end pipes Pipe.new,
      λ q h. get_elem?-append_left pipes (Pipe.new ∷ []) q h,
    )
