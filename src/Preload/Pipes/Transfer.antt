-- ===== src/Preload/Pipes/Transfer.antt =====
-- A message through a virtual pipe, from the `write` of one process to the `read` of another.
use vproc.Prelude.{
  ℕ, ◌<◌, ◌≤◌, ◌≡◌, refl, ap, ◌∙◌, min, List, [], ◌∷◌, ◌++◌, false, some, arith, ◌==◌, length, take,
  drop, get_elem?, get_elem?-modify_at_self,
}
use vproc.Prelude.Int.{ℤ, pos}
use vproc.Vfd.Pipe.{PipeBuffer, pipe_capacity, read_from, write_to}
use vproc.Vfd.Pipe.Inv.{IsValid, write_to-IsValid}
use vproc.Vfd.Pipe.Window.{contents, length-contents}
use vproc.Vfd.Pipe.Stream
use vproc.Vfd.Pipe.Stream.{Stream}
use vproc.Vfd.Pipe.Refine.{view, read_from_refines, write_to_refines}
use vproc.Vfd.Tables.{FdTables}
use vproc.Preload.Pipes.{returns, read_end, write_end, put_buffer, read_round, write_round}

take-all : (xs : List ℕ) → take (length xs) xs ≡ xs
take-all [] = refl
take-all (x ∷ xs) = ap (λ l. x ∷ l) (take-all xs)

drop-all : (xs : List ℕ) → drop (length xs) xs ≡ []
drop-all [] = refl
drop-all (x ∷ xs) = drop-all xs

none-empty : (xs : List ℕ) → length xs ≡ 0 → xs ≡ []
none-empty [] h = refl
none-empty (x ∷ xs) h = absurd (omega arith)

abbrev holding : List ℕ → Stream
holding bytes = record { bytes = bytes; closed = false }

Stream-write_fits :
    (src : List ℕ)
    → 0 < length src
    → length src ≤ pipe_capacity
    → Stream.write (holding []) src ≡ (pos (length src), holding src)
unfolding Stream.write pipe_capacity
Stream-write_fits src some_byte fits =
    let room : (pipe_capacity == 0) ≡ false = ground arith in
    let all : min (length src) pipe_capacity ≡ length src = omega arith in
    rw (room, all, take-all src) refl

Stream-read_fits :
    (src dst : List ℕ)
    → 0 < length src
    → length src ≤ length dst
    → Stream.read (holding src) dst ≡ (pos (length src), src ++ drop (length src) dst, holding [])
unfolding Stream.read
Stream-read_fits src dst some_byte room =
    let full : (length src == 0) ≡ false = ground arith in
    let all : min (length dst) (length src) ≡ length src = omega arith in
    rw (full, all, take-all src, drop-all src) refl

-- A write to an empty open buffer that the message fits in, and the read after it.
write_then_read :
    (b : PipeBuffer) (src dst : List ℕ)
    → IsValid b
    → b.len ≡ 0
    → b.closed ≡ false
    → 0 < length src
    → length src ≤ pipe_capacity
    → length src ≤ length dst
    → let (n, b') = write_to b src in
      let (m, dst', b'') = read_from b' dst in
      (n ≡ pos (length src))
      × (m ≡ pos (length src))
      × (dst' ≡ src ++ drop (length src) dst)
      × (contents b'' ≡ [])
write_then_read b src dst v empty opened some_byte fits room =
    let b' = (write_to b src).1 in
    let nothing = none-empty (contents b) (length-contents b ∙ empty) in
    let start : view b ≡ holding [] = ground arith in
    let wrote =
      write_to_refines b src v
      ∙ ap (λ (s : Stream). Stream.write s src) start
      ∙ Stream-write_fits src some_byte fits in
    let full = ap (λ (q : ℤ × Stream). q.1) wrote in
    let got =
      read_from_refines b' dst (write_to-IsValid b src v)
      ∙ ap (λ (s : Stream). Stream.read s dst) full
      ∙ Stream-read_fits src dst some_byte room in
    (
      ap (λ (q : ℤ × Stream). q.0) wrote,
      ap (λ (q : ℤ × List ℕ × Stream). q.0) got,
      ap (λ (q : ℤ × List ℕ × Stream). q.1) got,
      ap (λ (q : ℤ × List ℕ × Stream). q.2.bytes) got,
    )

-- A message of at least a byte that one process writes to an empty open pipe, and that fits in it, is what another process
-- reads from it into a buffer that is long enough: both calls return its length, and the rest of
-- the reader's buffer is as it was.
pub transfer :
    (s : FdTables) (writer write_fd reader read_fd p : ℕ) (b : PipeBuffer) (src dst : List ℕ)
    → write_end s writer write_fd ≡ some p
    → read_end s reader read_fd ≡ some p
    → get_elem? s.pipes p ≡ some b
    → IsValid b
    → b.len ≡ 0
    → b.closed ≡ false
    → 0 < length src
    → length src ≤ pipe_capacity
    → length src ≤ length dst
    → let (written, s') = write_round s writer write_fd src in
      let (got, dst', s'') = read_round s' reader read_fd dst in
      (written ≡ returns (pos (length src)))
      × (got ≡ returns (pos (length src)))
      × (dst' ≡ src ++ drop (length src) dst)
unfolding write_round read_round
transfer s writer write_fd reader read_fd p b src dst hw hr hb v empty opened some_byte fits room =
    let b' = (write_to b src).1 in
    let s' = put_buffer p b' s in
    let (n, m, filled, rest) = write_then_read b src dst v empty opened some_byte fits room in
    let there : get_elem? s'.pipes p ≡ some b' =
      get_elem?-modify_at_self s.pipes p (λ old. b') hb in
    let same : read_end s' reader read_fd ≡ some p = hr in
    let written : write_round s writer write_fd src ≡ (returns (pos (length src)), s') =
      ground (arith, n) in
    ground (arith, written, m, filled, there, same)
