-- ===== src/Vfd/Pipe/Refine.antt =====
-- `PipeBuffer` implements the bounded FIFO of `Stream`.
use vproc.Prelude.{
  ℕ, ◌+◌, ◌-◌, ◌%◌, ◌≤◌, ◌≡◌, ap, ◌∙◌, min, List, ◌++◌, arith, length, take, drop, take-append_self,
  drop-append_self,
}
use vproc.Vfd.Pipe.{PipeBuffer, pipe_capacity, read_from, write_to}
use vproc.Vfd.Pipe.Inv.{IsValid, read_loop_pos}
use vproc.Vfd.Pipe.Window.{
  unread, length-unread, unread_split, read_loop_lem, write_loop_lem, contents, length-contents,
}
use vproc.Vfd.Pipe.Stream.{Stream}
use vproc.Vfd.Pipe.Stream

abbrev pub view : PipeBuffer → Stream
view p = record { bytes = contents p; closed = p.closed }

-- The first `n` unread bytes, and the rest.
module _ (p : PipeBuffer) (v : IsValid p) (n : ℕ) (h : n ≤ p.len) where
  contents_split :
      contents p
      ≡ unread p.buf p.read_pos n ++ unread p.buf ((p.read_pos + n) % pipe_capacity) (p.len - n)
  contents_split =
      let same : p.len ≡ n + (p.len - n) = omega arith in
      ap (unread p.buf p.read_pos) same ∙ unread_split p.buf p.read_pos n (p.len - n) v.read_in

  take-contents : take n (contents p) ≡ unread p.buf p.read_pos n
  take-contents =
      ap (take n) contents_split ∙ take-append_self n _ _ (length-unread p.buf p.read_pos n)

  drop-contents : drop n (contents p) ≡ unread p.buf ((p.read_pos + n) % pipe_capacity) (p.len - n)
  drop-contents =
      ap (drop n) contents_split ∙ drop-append_self n _ _ (length-unread p.buf p.read_pos n)

-- On a valid buffer, `read_from` does what a read of the abstract pipe does: the same result, the
-- same destination, and the buffer then stands for the abstract pipe after the read.
pub read_from_refines :
    (p : PipeBuffer) (dst : List ℕ)
    → IsValid p
    → let (n, dst', p') = read_from p dst in (n, dst', view p') ≡ Stream.read (view p) dst
unfolding read_from Stream.read
read_from_refines p dst v =
    let n = min (length dst) p.len in
    ground (
      arith,
      length-contents p,
      read_loop_lem p.buf n p.read_pos dst (omega arith),
      read_loop_pos p.buf n p.read_pos dst v.read_in (omega arith),
      take-contents p v n (omega arith),
      drop-contents p v n (omega arith),
    )

-- On a valid buffer, `write_to` does what a write to the abstract pipe does: the same result, and
-- the buffer then stands for the abstract pipe after the write.
pub write_to_refines :
    (p : PipeBuffer) (src : List ℕ)
    → IsValid p
    → let (n, p') = write_to p src in (n, view p') ≡ Stream.write (view p) src
unfolding write_to Stream.write
write_to_refines p src v =
    let n = min (length src) (pipe_capacity - p.len) in
    ground (
      arith,
      length-contents p,
      write_loop_lem n src p.buf p.read_pos p.len p.write_pos v.storage v.read_in
          (omega (arith, v.len_in)) (omega arith) v.write_at,
    )
