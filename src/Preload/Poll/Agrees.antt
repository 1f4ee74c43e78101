-- ===== src/Preload/Poll/Agrees.antt =====
-- `poll` on a virtual pipe, beside the `read` or `write` that it is asked for.
use vproc.Prelude.{
  ℕ, ◌≡◌, ◌↔◌, ◌∙◌, ap, sym, List, true, false, some, arith, get_elem?, Bool-cases, inl, inr,
}
use mathlib.Core.Path.{subst}
use vproc.Prelude.Int.{ℤ, is_negative}
use vproc.Executor.Io.{PollFd}
use vproc.Vfd.Pipe
use vproc.Vfd.Pipe.{PipeBuffer, pipe_capacity, read_from, write_to}
use vproc.Vfd.Pipe.Inv.{IsValid}
use vproc.Vfd.Table.{Vfd, real, file, pipe_read, pipe_write}
use vproc.Vfd.Tables.{FdTables}
use vproc.Preload.Host.{as_u32}
use vproc.Preload.Pipes.{yields, read_end, write_end, read_round, write_round}
use vproc.Preload.Poll.{
  RealPoll, pollin, pollout, has_event, entry_of, look_at, read_events, write_events,
}

-- Both sides for a buffer alone.
read_events-none :
    (p : ℕ) (b : PipeBuffer) (events : ℕ) (dst : List ℕ)
    → has_event pollin events ≡ true
    → (read_events (some (p, b)) events ≡ 0) ↔ (is_negative (read_from b dst).0 ≡ true)
unfolding read_events Pipe.is_empty Pipe.is_closed read_from
read_events-none p b events dst asks = (λ e. ground (arith, asks, e), λ e. ground (arith, asks, e))

-- The outcome of a `write` that does not go on: it yields, and the process is not ended.
write_events-none :
    (p : ℕ) (b : PipeBuffer) (events : ℕ) (src : List ℕ)
    → IsValid b
    → has_event pollout events ≡ true
    → (write_events (some (p, b)) events ≡ 0)
      ↔ ((is_negative (write_to b src).0 ≡ true) × (b.closed ≡ false))
unfolding write_events Pipe.is_full Pipe.is_closed write_to
write_events-none p b events src valid asks = elim (Bool-cases b.closed) [
  | inl shut ↦
      (λ e. absurd (ground (arith, asks, e, shut)), λ (refused, opened). absurd (ground arith))
  | inr opened ↦ (
    λ e. (ground (arith, asks, e, opened, valid.len_in), opened),
    λ (refused, o). ground (arith, asks, refused, opened, valid.len_in),
  )
]

read_round-yields :
    (s : FdTables) (vpid fd p : ℕ) (b : PipeBuffer) (dst : List ℕ)
    → read_end s vpid fd ≡ some p
    → get_elem? s.pipes p ≡ some b
    → ((read_round s vpid fd dst).0 ≡ yields) ↔ (is_negative (read_from b dst).0 ≡ true)
unfolding read_round
read_round-yields s vpid fd p b dst e there = (
  λ stops. elim (Bool-cases (is_negative (read_from b dst).0)) [
    | inl negative ↦ negative
    | inr answered ↦ absurd (ground (arith, stops, answered, e, there))
  ],
  λ negative. ground (arith, negative),
)

write_round-yields :
    (s : FdTables) (vpid fd p : ℕ) (b : PipeBuffer) (src : List ℕ)
    → write_end s vpid fd ≡ some p
    → get_elem? s.pipes p ≡ some b
    → ((write_round s vpid fd src).0 ≡ yields)
      ↔ ((is_negative (write_to b src).0 ≡ true) × (b.closed ≡ false))
unfolding write_round Pipe.is_closed
write_round-yields s vpid fd p b src e there = (
  λ stops. elim (Bool-cases (is_negative (write_to b src).0)) [
    | inl refused ↦ elim (Bool-cases b.closed) [
      | inl shut ↦ absurd (ground (arith, stops, refused, shut, e, there))
      | inr opened ↦ (refused, opened)
    ]
    | inr answered ↦ absurd (ground (arith, stops, answered, e, there))
  ],
  λ (refused, opened). ground (arith, refused, opened),
)

read_end-entry :
    (s : FdTables) (vpid p : ℕ) (fd : ℤ)
    → entry_of s vpid fd ≡ some (pipe_read p)
    → read_end s vpid (as_u32 fd) ≡ some p
unfolding entry_of read_end
read_end-entry s vpid p fd e = ground arith

write_end-entry :
    (s : FdTables) (vpid p : ℕ) (fd : ℤ)
    → entry_of s vpid fd ≡ some (pipe_write p)
    → write_end s vpid (as_u32 fd) ≡ some p
unfolding entry_of write_end
write_end-entry s vpid p fd e = ground arith

iff_then {ℓ μ ν} : {A : Type ℓ} {B : Type μ} {C : Type ν} → A ↔ B → C ↔ B → A ↔ C
iff_then (ab, ba) (cb, bc) = (λ a. bc (ab a), λ c. ba (cb c))

-- The descriptor is an end of the pipe `p`, and the events ask for what that end is for.
abbrev pub Asks : ℕ → ℕ → Vfd → Type 0
Asks p events (real r) = ⊥
Asks p events (file arc f) = ⊥
Asks p events (pipe_read q) = (q ≡ p) × (has_event pollin events ≡ true)
Asks p events (pipe_write q) = (q ≡ p) × (has_event pollout events ≡ true)

-- A `read` or `write` of the bytes on the descriptor yields.
abbrev pub Yields : FdTables → ℕ → ℤ → List ℕ → Vfd → Type 0
Yields s vpid fd bytes (real r) = ⊥
Yields s vpid fd bytes (file arc f) = ⊥
Yields s vpid fd bytes (pipe_read q) = (read_round s vpid (as_u32 fd) bytes).0 ≡ yields
Yields s vpid fd bytes (pipe_write q) = (write_round s vpid (as_u32 fd) bytes).0 ≡ yields

module _ {ℓ} {K : Type ℓ} (real_poll : RealPoll K) (s : FdTables) (vpid p : ℕ) (b : PipeBuffer)
    (pfd : PollFd) (k : K) where
  found_read :
      entry_of s vpid pfd.fd ≡ some (pipe_read p)
      → get_elem? s.pipes p ≡ some b
      → (look_at real_poll s vpid pfd k).found ≡ read_events (some (p, b)) pfd.events
  unfolding look_at
  found_read entry there = ground arith

  found_write :
      entry_of s vpid pfd.fd ≡ some (pipe_write p)
      → get_elem? s.pipes p ≡ some b
      → (look_at real_poll s vpid pfd k).found ≡ write_events (some (p, b)) pfd.events
  unfolding look_at
  found_write entry there = ground arith

  -- On an end of a virtual pipe, asked for what that end is for, a round of `poll` finds nothing exactly
  -- when a `read` or a `write` on it would yield: it reports the descriptor just where the call
  -- goes on, be it to bytes, to the end of the stream, or to SIGPIPE.
  pub look_at_agrees :
      (pipe_end : Vfd) (bytes : List ℕ)
      → entry_of s vpid pfd.fd ≡ some pipe_end
      → Asks p pfd.events pipe_end
      → get_elem? s.pipes p ≡ some b
      → IsValid b
      → ((look_at real_poll s vpid pfd k).found ≡ 0) ↔ Yields s vpid pfd.fd bytes pipe_end
  look_at_agrees (real r) bytes entry asked there valid = absurd asked
  look_at_agrees (file arc f) bytes entry asked there valid = absurd asked
  look_at_agrees (pipe_read q) bytes entry (same, asks) there valid =
      let own : entry_of s vpid pfd.fd ≡ some (pipe_read p) =
        entry ∙ ap (λ i. some (pipe_read i)) same in
      subst (λ (n : ℕ). (n ≡ 0) ↔ ((read_round s vpid (as_u32 pfd.fd) bytes).0 ≡ yields))
        (sym (found_read own there))
        (iff_then (read_events-none p b pfd.events bytes asks) (
          read_round-yields s vpid (as_u32 pfd.fd) p b bytes (read_end-entry s vpid p pfd.fd own)
            there))
  look_at_agrees (pipe_write q) bytes entry (same, asks) there valid =
      let own : entry_of s vpid pfd.fd ≡ some (pipe_write p) =
        entry ∙ ap (λ i. some (pipe_write i)) same in
      subst (λ (n : ℕ). (n ≡ 0) ↔ ((write_round s vpid (as_u32 pfd.fd) bytes).0 ≡ yields))
        (sym (found_write own there))
        (iff_then (write_events-none p b pfd.events bytes valid asks) (
          write_round-yields s vpid (as_u32 pfd.fd) p b bytes (write_end-entry s vpid p pfd.fd own)
            there))
