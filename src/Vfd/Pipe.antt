-- ===== src/Vfd/Pipe.antt =====
-- `PipeBuffer` of src/vfd.rs, a ring of bytes with interior mutability. A method that writes
-- through `inner()` returns the new state. A byte is a number, moved and never computed with.
pub mod Inv
pub mod Window
pub mod Stream
pub mod Refine
pub mod Traffic
use vproc.Prelude.{
  ℕ, zero, suc, ◌+◌, ◌-◌, ◌%◌, min, List, [], ◌∷◌, Bool, true, false, ◌==◌, if◌then◌else◌, length,
  get_or, set, replicate,
}
use vproc.Prelude.Int.{ℤ, pos, minus_one}

-- `PIPE_CAPACITY`, 64 KiB. It is not unfolded in the proofs, which need only that it is positive.
unfoldable pub pipe_capacity : ℕ
pipe_capacity = 65536

pub record PipeBuffer : Type 0 where
  pub buf : List ℕ
  pub read_pos : ℕ
  pub write_pos : ℕ
  pub len : ℕ
  pub closed : Bool

unfoldable pub new : PipeBuffer
new = record {
  buf = replicate pipe_capacity 0;
  read_pos = 0;
  write_pos = 0;
  len = 0;
  closed = false;
}

-- The loop of `read_from` over the first `n` slots of `dst`: the filled slots, the slots left
-- alone, and the read position after it.
unfoldable pub read_loop : List ℕ → ℕ → ℕ → List ℕ → List ℕ × ℕ
read_loop buf zero read_pos dst = (dst, read_pos)
read_loop buf (suc n) read_pos [] = ([], read_pos)
read_loop buf (suc n) read_pos (slot ∷ dst) =
    let (rest, end) = read_loop buf n ((read_pos + 1) % pipe_capacity) dst in
    (get_or buf read_pos 0 ∷ rest, end)

-- Returns the count (or -1), the contents of `dst`, and the buffer.
unfoldable pub read_from : PipeBuffer → List ℕ → ℤ × List ℕ × PipeBuffer
unfolding read_loop
read_from p dst =
    if p.len == 0
    then (if p.closed then (pos 0, dst, p) else (minus_one, dst, p))
    else (let n = min (length dst) p.len in
        let (filled, end) = read_loop p.buf n p.read_pos dst in
        (pos n, filled, record p { read_pos = end; len = p.len - n }))

-- The loop of `write_to` over the first `n` bytes of `src`.
unfoldable pub write_loop : ℕ → List ℕ → List ℕ → ℕ → List ℕ × ℕ
write_loop zero src buf write_pos = (buf, write_pos)
write_loop (suc n) [] buf write_pos = (buf, write_pos)
write_loop (suc n) (byte ∷ src) buf write_pos =
    write_loop n src (set buf write_pos byte) ((write_pos + 1) % pipe_capacity)

unfoldable pub write_to : PipeBuffer → List ℕ → ℤ × PipeBuffer
unfolding write_loop
write_to p src =
    if p.closed
    then (minus_one, p)
    else (let available = pipe_capacity - p.len in
        if available == 0
        then (minus_one, p)
        else (let n = min (length src) available in
            let (buf', end) = write_loop n src p.buf p.write_pos in
            (pos n, record p { buf = buf'; write_pos = end; len = p.len + n })))

unfoldable pub close : PipeBuffer → PipeBuffer
close p = record p { closed = true }

unfoldable pub is_closed : PipeBuffer → Bool
is_closed p = p.closed

unfoldable pub is_empty : PipeBuffer → Bool
is_empty p = p.len == 0

unfoldable pub is_full : PipeBuffer → Bool
is_full p = p.len == pipe_capacity
