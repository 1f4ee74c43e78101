-- ===== src/Vfd/Pipe/Stream.antt =====
-- The contract of a pipe: a bounded FIFO of bytes that can be closed. src/vfd.rs has no such
-- type; its `PipeBuffer` is proved to implement it.
use vproc.Prelude.{ℕ, ◌-◌, ◌++◌, List, Bool, true, min, length, take, drop, if◌then◌else◌, ◌==◌}
use vproc.Prelude.Int.{ℤ, pos, minus_one}
use vproc.Vfd.Pipe.{pipe_capacity}

-- The unread bytes in order, and whether the pipe is closed.
pub record Stream : Type 0 where
  pub bytes : List ℕ
  pub closed : Bool

-- Reads what is there and what fits; 0 is the end of a closed stream, -1 an empty open one.
unfoldable pub read : Stream → List ℕ → ℤ × List ℕ × Stream
read s dst =
    if length s.bytes == 0
    then (if s.closed then (pos 0, dst, s) else (minus_one, dst, s))
    else (let n = min (length dst) (length s.bytes) in
        (pos n, take n s.bytes ++ drop n dst, record s { bytes = drop n s.bytes }))

-- Appends what fits; -1 for a closed or a full stream.
unfoldable pub write : Stream → List ℕ → ℤ × Stream
write s src =
    if s.closed
    then (minus_one, s)
    else (let room = pipe_capacity - length s.bytes in
        if room == 0
        then (minus_one, s)
        else (let n = min (length src) room in (pos n, record s { bytes = s.bytes ++ take n src })))

unfoldable pub close : Stream → Stream
close s = record s { closed = true }
