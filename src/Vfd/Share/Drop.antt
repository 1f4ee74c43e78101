-- ===== src/Vfd/Share/Drop.antt =====
-- `drop`: the buffers of a table that goes away are closed.
use vproc.Prelude.{
  ℕ, ◌≡◌, refl, ◌∙◌, List, [], ◌∷◌, Bool, false, ◌||◌, some, arith, ◌==◌, if◌then◌else◌, contains,
  get_elem?, modify_at, get_elem?-modify_at, inl, inr, Bool-cases,
}
use vproc.Prelude.Assoc.{Assoc, lookup, any_value, any_value-lookup}
use vproc.Prelude.Assoc.Distinct.{Distinct, any_value-witness}
use vproc.Vfd.Table.Close.{IsPipeEnd}
use vproc.Vfd.Pipe
use vproc.Vfd.Pipe.{PipeBuffer}
use vproc.Vfd.Table.{Vfd, real, file, pipe_read, pipe_write, Pipes, VfdTable, get, refers_to_pipe}
use vproc.Vfd.Share.{drop_loop, drop_table}

pub close_idempotent : (b : PipeBuffer) → Pipe.close (Pipe.close b) ≡ Pipe.close b
unfolding Pipe.close
close_idempotent b = refl

-- What `drop_loop` leaves of the buffer `b`, by whether it was seen and whether it is referred to.
abbrev dropped : Bool → Bool → PipeBuffer → PipeBuffer
dropped seen referred b = if seen then b else if referred then Pipe.close b else b

-- One round at an end of the buffer `q`, given the rounds after it.
drop_round :
    (q : ℕ) (fds : Assoc Vfd) (seen : List ℕ) (pipes : Pipes) (p : ℕ) (b : PipeBuffer)
    → get_elem? pipes p ≡ some b
    → ((seen' : List ℕ) (pipes' : Pipes) (b' : PipeBuffer)
        → get_elem? pipes' p ≡ some b'
        → get_elem? (drop_loop fds seen' pipes') p
          ≡ some (dropped (contains p seen') (any_value (refers_to_pipe p) fds) b'))
    → get_elem?
        (if contains q seen
          then drop_loop fds seen pipes
          else drop_loop fds (q ∷ seen) (modify_at pipes q Pipe.close))
        p
      ≡ some (dropped (contains p seen) ((q == p) || any_value (refers_to_pipe p) fds) b)
drop_round q fds seen pipes p b h later =
    let b' = if q == p then Pipe.close b else b in
    let changed : get_elem? (modify_at pipes q Pipe.close) p ≡ some b' =
      ground (arith, get_elem?-modify_at pipes q p Pipe.close) in
    ground (
      arith,
      later seen pipes b h,
      later (q ∷ seen) (modify_at pipes q Pipe.close) b' changed,
      close_idempotent b,
    )

drop_loop_lem :
    (fds : Assoc Vfd) (seen : List ℕ) (pipes : Pipes) (p : ℕ) (b : PipeBuffer)
    → get_elem? pipes p ≡ some b
    → get_elem? (drop_loop fds seen pipes) p
      ≡ some (dropped (contains p seen) (any_value (refers_to_pipe p) fds) b)
unfolding drop_loop refers_to_pipe
drop_loop_lem [] seen pipes p b h = ground arith
drop_loop_lem ((k, real r) ∷ fds) seen pipes p b h = drop_loop_lem fds seen pipes p b h
drop_loop_lem ((k, file arc f) ∷ fds) seen pipes p b h = drop_loop_lem fds seen pipes p b h
drop_loop_lem ((k, pipe_read q) ∷ fds) seen pipes p b h =
    drop_round q fds seen pipes p b h (λ s l c. drop_loop_lem fds s l p c)
drop_loop_lem ((k, pipe_write q) ∷ fds) seen pipes p b h =
    drop_round q fds seen pipes p b h (λ s l c. drop_loop_lem fds s l p c)

-- Dropping a table closes every buffer that one of its descriptors is an end of, whoever else
-- holds that buffer, and leaves each buffer that none of them is an end of as it was.
pub drop_table_closes :
    (t : VfdTable) (pipes : Pipes) (p : ℕ) (b : PipeBuffer)
    → Distinct t.fds
    → get_elem? pipes p ≡ some b
    → ((fd : ℕ) (vfd : Vfd)
        → get t fd ≡ some vfd
        → IsPipeEnd p vfd
        → get_elem? (drop_table t pipes) p ≡ some (Pipe.close b))
      × (((fd : ℕ) (vfd : Vfd) → get t fd ≡ some vfd → ¬ IsPipeEnd p vfd)
          → get_elem? (drop_table t pipes) p ≡ some b)
unfolding drop_table get
drop_table_closes t pipes p b d h = (
  λ fd vfd found end.
      drop_loop_lem t.fds [] pipes p b h
      ∙ rw (any_value-lookup (refers_to_pipe p) fd vfd t.fds found end),
  λ none_is. drop_loop_lem t.fds [] pipes p b h ∙ rw (unreferred none_is),
)
  where
    unreferred :
        ((fd : ℕ) (vfd : Vfd) → lookup fd t.fds ≡ some vfd → ¬ IsPipeEnd p vfd)
        → any_value (refers_to_pipe p) t.fds ≡ false
    unreferred none_is = elim (Bool-cases (any_value (refers_to_pipe p) t.fds)) [
      | inl some_is ↦
          let (fd, vfd, found, end) = any_value-witness (refers_to_pipe p) t.fds d some_is in
          absurd (none_is fd vfd found end)
      | inr nothing ↦ nothing
    ]
