-- ===== src/Vfd/Pipe/Inv.antt =====
-- The representation invariant of a pipe buffer: every index of `read_from` and `write_to` is in
-- range, and the write position is where the unread bytes end.
use vproc.Prelude.{
  ℕ, zero, suc, ◌+◌, ◌-◌, ◌%◌, ◌≤◌, ◌<◌, ◌≡◌, refl, ap, ◌∙◌, min, List, [], ◌∷◌, arith, length, set,
  length-set, length-replicate,
}
use native.Mathlib.Nat.{mod-add-mod, mod-eq_of_lt, add-zero}
use vproc.Vfd.Pipe.{
  PipeBuffer, pipe_capacity, new, read_loop, read_from, write_loop, write_to, close,
}

pub pipe_capacity-pos : 0 < pipe_capacity
unfolding pipe_capacity
pipe_capacity-pos = omega arith

pub record IsValid (p : PipeBuffer) : Type 0 where
  pub storage : length p.buf ≡ pipe_capacity
  pub read_in : p.read_pos < pipe_capacity
  pub len_in : p.len ≤ pipe_capacity
  pub write_at : p.write_pos ≡ (p.read_pos + p.len) % pipe_capacity

pub new-IsValid : IsValid new
unfolding new
new-IsValid = record {
  storage = length-replicate pipe_capacity (let z : ℕ = 0 in z);
  read_in = pipe_capacity-pos;
  len_in = omega arith;
  write_at = omega (arith, pipe_capacity-pos, mod-eq_of_lt pipe_capacity-pos);
}

pub round-lt : (k : ℕ) → k % pipe_capacity < pipe_capacity
round-lt k = omega (arith, pipe_capacity-pos)

-- One step of a position and `n` more are `n + 1` steps.
pub round_step :
    (r n : ℕ) → ((r + 1) % pipe_capacity + n) % pipe_capacity ≡ (r + suc n) % pipe_capacity
round_step r n = rw mod-add-mod (ap (λ k. k % pipe_capacity) (omega arith))

-- Where `read_loop` leaves the read position.
pub read_loop_pos :
    (buf : List ℕ) (n r : ℕ) (dst : List ℕ)
    → r < pipe_capacity
    → n ≤ length dst
    → (read_loop buf n r dst).1 ≡ (r + n) % pipe_capacity
unfolding read_loop
read_loop_pos buf zero r dst h k = rw (add-zero, mod-eq_of_lt h)
read_loop_pos buf (suc n) r [] h k = absurd (omega arith)
read_loop_pos buf (suc n) r (x ∷ dst) h k =
    read_loop_pos buf n ((r + 1) % pipe_capacity) dst (round-lt (r + 1)) (omega arith)
    ∙ round_step r n

-- Where `write_loop` leaves the write position.
pub write_loop_pos :
    (n : ℕ) (src buf : List ℕ) (w : ℕ)
    → w < pipe_capacity
    → n ≤ length src
    → (write_loop n src buf w).1 ≡ (w + n) % pipe_capacity
unfolding write_loop
write_loop_pos zero src buf w h k = rw (add-zero, mod-eq_of_lt h)
write_loop_pos (suc n) [] buf w h k = absurd (omega arith)
write_loop_pos (suc n) (x ∷ src) buf w h k =
    write_loop_pos n src (set buf w x) ((w + 1) % pipe_capacity) (round-lt (w + 1)) (omega arith)
    ∙ round_step w n

pub length-write_loop :
    (n : ℕ) (src buf : List ℕ) (w : ℕ) → length (write_loop n src buf w).0 ≡ length buf
unfolding write_loop
length-write_loop zero src buf w = refl
length-write_loop (suc n) [] buf w = refl
length-write_loop (suc n) (x ∷ src) buf w =
    length-write_loop n src (set buf w x) ((w + 1) % pipe_capacity) ∙ length-set buf w x

-- The end of the unread bytes is where it was, when `n` of `k + n` bytes are read.
read_end :
    (r n k : ℕ) → ((r + n) % pipe_capacity + k) % pipe_capacity ≡ (r + (n + k)) % pipe_capacity
read_end r n k = rw mod-add-mod (ap (λ j. j % pipe_capacity) (omega arith))

pub read_from-IsValid : (p : PipeBuffer) (dst : List ℕ) → IsValid p → IsValid (read_from p dst).2
unfolding read_from
read_from-IsValid p dst v =
    let n = min (length dst) p.len in
    ground (
      arith,
      read_loop_pos p.buf n p.read_pos dst v.read_in (omega arith),
      round-lt (p.read_pos + n),
      read_end p.read_pos n (p.len - n),
    )

pub write_to-IsValid : (p : PipeBuffer) (src : List ℕ) → IsValid p → IsValid (write_to p src).1
unfolding write_to
write_to-IsValid p src v =
    let n = min (length src) (pipe_capacity - p.len) in
    ground (
      arith,
      write_loop_pos n src p.buf p.write_pos (omega (arith, round-lt (p.read_pos + p.len)))
          (omega arith),
      length-write_loop n src p.buf p.write_pos,
      read_end p.read_pos p.len n,
    )

pub close-IsValid : (p : PipeBuffer) → IsValid p → IsValid (close p)
unfolding close
close-IsValid p v = ground arith
