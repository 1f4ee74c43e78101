-- ===== src/Preload/Pipes.antt =====
-- The loops of `read` and `write` of src/preload.rs on a virtual pipe, one round at a time.
pub mod Transfer
use vproc.Prelude.{
  ℕ, ◌+◌, List, [], ◌∷◌, Bool, true, false, Option, none, some, if◌then◌else◌, get_elem?, modify_at,
}
use vproc.Prelude.Int.{ℤ, pos, negsuc, is_negative}
use vproc.Vfd.Pipe
use vproc.Vfd.Pipe.{PipeBuffer}
use vproc.Vfd.Table.{Vfd, real, file, pipe_read, pipe_write, VfdTable, ebadf, get}
use vproc.Vfd.Tables.{FdTables, get_table}

-- How a round ends: the call returns, fails with an `errno`, yields and looks again, or ends the
-- process with a code.
pub data Turn : Type 0 where
  returns : ℤ → Turn
  fails : ℕ → Turn
  yields : Turn
  exits : ℤ → Turn

-- The test `is_virtual` of `read` and `write`.
unfoldable pub is_pipe : FdTables → ℕ → ℕ → Bool
unfolding get_table get
is_pipe s vpid fd = elim (get_table s vpid) [
  | none ↦ false
  | some t ↦ elim (get t fd) [
    | some (pipe_read p) ↦ true
    | some (pipe_write p) ↦ true
    | other ↦ false
  ]
]

-- The buffer of the reading end `fd`, if it is one, and of the writing end.
unfoldable pub read_end : FdTables → ℕ → ℕ → Option ℕ
unfolding get_table get
read_end s vpid fd = elim (get_table s vpid) [
  | none ↦ none
  | some t ↦ elim (get t fd) [ some (pipe_read p) ↦ some p | other ↦ none ]
]

unfoldable pub write_end : FdTables → ℕ → ℕ → Option ℕ
unfolding get_table get
write_end s vpid fd = elim (get_table s vpid) [
  | none ↦ none
  | some t ↦ elim (get t fd) [ some (pipe_write p) ↦ some p | other ↦ none ]
]

-- The buffer with the number, which an end always has.
abbrev pub buffer : FdTables → Option ℕ → Option (ℕ × PipeBuffer)
buffer s none = none
buffer s (some p) = elim (get_elem? s.pipes p) [ none ↦ none | some b ↦ some (p, b) ]

abbrev pub put_buffer : ℕ → PipeBuffer → FdTables → FdTables
put_buffer p b s = record s { pipes = modify_at s.pipes p (λ old. b) }

-- The result, the contents of `buf`, and the tables.
unfoldable pub read_round : FdTables → ℕ → ℕ → List ℕ → Turn × List ℕ × FdTables
unfolding read_end
read_round s vpid fd dst = elim (buffer s (read_end s vpid fd)) [
  | none ↦ (fails ebadf, dst, s)
  | some (p, b) ↦
      let (n, dst', b') = Pipe.read_from b dst in
      if is_negative n then (yields, dst, s) else (returns n, dst', put_buffer p b' s)
]

-- SIGPIPE is 13.
unfoldable pub write_round : FdTables → ℕ → ℕ → List ℕ → Turn × FdTables
unfolding write_end
write_round s vpid fd src = elim (buffer s (write_end s vpid fd)) [
  | none ↦ (fails ebadf, s)
  | some (p, b) ↦
      let (n, b') = Pipe.write_to b src in
      let refused : Turn = if Pipe.is_closed b then exits (pos (128 + 13)) else yields in
      if is_negative n then (refused, s) else (returns n, put_buffer p b' s)
]
