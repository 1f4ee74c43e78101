-- ===== src/Vfd/Pipe/Traffic.antt =====
-- What passes through a pipe buffer over any sequence of calls.
use vproc.Prelude.{
  ℕ, ◌≡◌, sym, ap, ◌∙◌, min, List, [], ◌∷◌, ◌++◌, arith, length, take, drop, length-take,
  take-append_self, take-append-drop,
}
use vproc.Prelude.Int.{ℤ, pos, negsuc}
use mathlib.Core.Path.{subst}
use mathlib.Core.List.{append_assoc, append-nil}
use vproc.Vfd.Pipe.{PipeBuffer, read_from, write_to, close}
use vproc.Vfd.Pipe.Inv.{IsValid, read_from-IsValid, write_to-IsValid, close-IsValid}
use vproc.Vfd.Pipe.Window.{contents}
use vproc.Vfd.Pipe.Stream.{Stream}
use vproc.Vfd.Pipe.Stream
use vproc.Vfd.Pipe.Refine.{view, read_from_refines, write_to_refines}

-- The calls that coroutines make on one buffer, in the order in which they run.
pub data Call : Type 0 where
  reads : List ℕ → Call
  writes : List ℕ → Call
  closes : Call

-- The bytes that a returned count speaks of.
abbrev pub counted : ℤ → List ℕ → List ℕ
counted (pos n) bytes = take n bytes
counted (negsuc n) bytes = []

-- All bytes that writers got in, all that readers got out, and the buffer in the end.
pub record Traffic : Type 0 where
  pub accepted : List ℕ
  pub received : List ℕ
  pub final : PipeBuffer

unfoldable pub run : PipeBuffer → List Call → Traffic
run p [] = record { accepted = []; received = []; final = p }
run p (reads dst ∷ calls) =
    let (n, dst', p') = read_from p dst in
    let t = run p' calls in record t { received = counted n dst' ++ t.received }
run p (writes src ∷ calls) =
    let (n, p') = write_to p src in
    let t = run p' calls in record t { accepted = counted n src ++ t.accepted }
run p (closes ∷ calls) = run (close p) calls

Stream-read :
    (s : Stream) (dst : List ℕ)
    → let (n, dst', s') = Stream.read s dst in s.bytes ≡ counted n dst' ++ s'.bytes
unfolding Stream.read
Stream-read s dst =
    let n = min (length dst) (length s.bytes) in
    ground (
      arith,
      take-append_self n (take n s.bytes) (drop n dst) (omega (arith, length-take n s.bytes)),
      take-append-drop n s.bytes,
    )

Stream-write :
    (s : Stream) (src : List ℕ)
    → let (n, s') = Stream.write s src in s'.bytes ≡ s.bytes ++ counted n src
unfolding Stream.write
Stream-write s src = ground (arith, append-nil s.bytes)

contents-read_from :
    (p : PipeBuffer) (dst : List ℕ)
    → IsValid p
    → let (n, dst', p') = read_from p dst in contents p ≡ counted n dst' ++ contents p'
contents-read_from p dst v =
    subst (λ (q : ℤ × List ℕ × Stream). contents p ≡ counted q.0 q.1 ++ q.2.bytes)
      (sym (read_from_refines p dst v)) (Stream-read (view p) dst)

contents-write_to :
    (p : PipeBuffer) (src : List ℕ)
    → IsValid p
    → let (n, p') = write_to p src in contents p' ≡ contents p ++ counted n src
contents-write_to p src v =
    subst (λ (q : ℤ × Stream). q.1.bytes ≡ contents p ++ counted q.0 src)
      (sym (write_to_refines p src v)) (Stream-write (view p) src)

-- Over any calls on a valid buffer, the bytes unread at the start followed by the bytes that
-- `write_to` accepted are the bytes that `read_from` handed out followed by the bytes unread at
-- the end, in this order: none is lost, repeated or reordered. The buffer stays valid.
pub run_conserves :
    (calls : List Call) (p : PipeBuffer)
    → IsValid p
    → (contents p ++ (run p calls).accepted
        ≡ (run p calls).received ++ contents (run p calls).final)
      × IsValid (run p calls).final
unfolding run close
run_conserves [] p v = (append-nil (contents p), v)
run_conserves (reads dst ∷ calls) p v =
    let (n, dst', p') = read_from p dst in
    let (same, valid) = run_conserves calls p' (read_from-IsValid p dst v) in
    (
      ap (λ bytes. bytes ++ (run p' calls).accepted) (contents-read_from p dst v)
          ∙ append_assoc (counted n dst') (contents p') (run p' calls).accepted
          ∙ ap (λ bytes. counted n dst' ++ bytes) same
          ∙ sym (
              append_assoc (counted n dst') (run p' calls).received
                (contents (run p' calls).final)),
      valid,
    )
run_conserves (writes src ∷ calls) p v =
    let (n, p') = write_to p src in
    let (same, valid) = run_conserves calls p' (write_to-IsValid p src v) in
    (
      sym (append_assoc (contents p) (counted n src) (run p' calls).accepted)
          ∙ ap (λ bytes. bytes ++ (run p' calls).accepted) (sym (contents-write_to p src v))
          ∙ same,
      valid,
    )
run_conserves (closes ∷ calls) p v = run_conserves calls (close p) (close-IsValid p v)
