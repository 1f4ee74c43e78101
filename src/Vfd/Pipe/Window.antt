-- ===== src/Vfd/Pipe/Window.antt =====
-- The unread bytes of a pipe buffer, and what the two loops do to them.
use vproc.Prelude.{
  ℕ, zero, suc, ◌+◌, ◌-◌, ◌%◌, ◌≤◌, ◌<◌, ◌≡◌, ◌≢◌, refl, sym, ap, ◌∙◌, List, [], ◌∷◌, ◌++◌, arith,
  length, get_or, set, take, drop, get_or-set_self, get_or-set_ne, length-set,
}
use mathlib.Core.Path.{ap₂}
use mathlib.Core.List.{append_assoc, append-nil}
use native.Mathlib.Nat.{mod-add-mod, mod-eq_of_lt, mod-eq-sub-mod, add-zero}
use vproc.Vfd.Pipe.{PipeBuffer, pipe_capacity, read_loop, write_loop}
use vproc.Vfd.Pipe.Inv.{round-lt, round_step}

-- The `n` bytes from position `r` on.
abbrev pub unread : List ℕ → ℕ → ℕ → List ℕ
unread buf r zero = []
unread buf r (suc n) = get_or buf r 0 ∷ unread buf ((r + 1) % pipe_capacity) n

pub length-unread : (buf : List ℕ) (r n : ℕ) → length (unread buf r n) ≡ n
length-unread buf r zero = refl
length-unread buf r (suc n) = ap suc (length-unread buf ((r + 1) % pipe_capacity) n)

abbrev pub contents : PipeBuffer → List ℕ
contents p = unread p.buf p.read_pos p.len

pub length-contents : (p : PipeBuffer) → length (contents p) ≡ p.len
length-contents p = length-unread p.buf p.read_pos p.len

pub unread_split :
    (buf : List ℕ) (r n k : ℕ)
    → r < pipe_capacity
    → unread buf r (n + k) ≡ unread buf r n ++ unread buf ((r + n) % pipe_capacity) k
unread_split buf r zero k h = rw (add-zero, mod-eq_of_lt h) (ap (unread buf r) (omega arith))
unread_split buf r (suc n) k h =
    let r' = (r + 1) % pipe_capacity in
    let same : suc n + k ≡ suc (n + k) = omega arith in
    ap (unread buf r) same
    ∙ ap (λ bytes. get_or buf r 0 ∷ bytes)
        (unread_split buf r' n k (round-lt (r + 1))
          ∙ ap (λ q. unread buf r' n ++ unread buf q k) (round_step r n))

-- What the loop of `read_from` puts into the slots.
pub read_loop_lem :
    (buf : List ℕ) (n r : ℕ) (dst : List ℕ)
    → n ≤ length dst
    → (read_loop buf n r dst).0 ≡ unread buf r n ++ drop n dst
unfolding read_loop
read_loop_lem buf zero r dst h = refl
read_loop_lem buf (suc n) r [] h = absurd (omega arith)
read_loop_lem buf (suc n) r (x ∷ dst) h =
    ap (λ k. get_or buf r 0 ∷ k) (read_loop_lem buf n ((r + 1) % pipe_capacity) dst (omega arith))

-- Fewer than `pipe_capacity` steps round the ring do not come back to the start.
no_lap : (r k : ℕ) → r < pipe_capacity → suc k < pipe_capacity → (r + suc k) % pipe_capacity ≢ r
no_lap r k hr hk e =
    let turn = mod-eq-sub-mod {n = r + suc k} {m = pipe_capacity} in
    let small = mod-eq_of_lt {n = r + suc k} {m = pipe_capacity} in
    let over = mod-eq_of_lt {n = r + suc k - pipe_capacity} {m = pipe_capacity} in
    ground (arith, turn, small, over)

-- A byte written where the unread bytes end is one more unread byte.
unread-set :
    (buf : List ℕ) (byte n r w : ℕ)
    → length buf ≡ pipe_capacity
    → r < pipe_capacity
    → n < pipe_capacity
    → w ≡ (r + n) % pipe_capacity
    → unread (set buf w byte) r (suc n) ≡ unread buf r n ++ byte ∷ []
unread-set buf byte zero r w hs hr hn e =
    rw (e, add-zero, mod-eq_of_lt hr, get_or-set_self buf r byte 0 (omega arith))
unread-set buf byte (suc n) r w hs hr hn e =
    ap₂ ◌∷◌ (get_or-set_ne buf w r byte 0 (λ same. no_lap r n hr hn (sym e ∙ same))) (
      unread-set buf byte n ((r + 1) % pipe_capacity) w hs (round-lt (r + 1)) (omega arith)
        (e ∙ sym (round_step r n)))

-- What `write_loop` leaves unread.
pub write_loop_lem :
    (n : ℕ) (src buf : List ℕ) (r k w : ℕ)
    → length buf ≡ pipe_capacity
    → r < pipe_capacity
    → k + n ≤ pipe_capacity
    → n ≤ length src
    → w ≡ (r + k) % pipe_capacity
    → unread (write_loop n src buf w).0 r (k + n) ≡ unread buf r k ++ take n src
unfolding write_loop
write_loop_lem zero src buf r k w hs hr hk hn e = rw (add-zero, append-nil)
write_loop_lem (suc n) [] buf r k w hs hr hk hn e = absurd (omega arith)
write_loop_lem (suc n) (byte ∷ src) buf r k w hs hr hk hn e =
    let buf' = set buf w byte in
    let w' = (w + 1) % pipe_capacity in
    let same : k + suc n ≡ suc k + n = omega arith in
    ap (unread (write_loop n src buf' w').0 r) same
    ∙ write_loop_lem n src buf' r (suc k) w' (length-set buf w byte ∙ hs) hr (omega arith)
        (omega arith) (rw (e, mod-add-mod) (ap (λ j. j % pipe_capacity) (omega arith)))
    ∙ ap (λ bytes. bytes ++ take n src) (unread-set buf byte k r w hs hr (omega arith) e)
    ∙ append_assoc (unread buf r k) (byte ∷ []) (take n src)
