-- ===== src/Ffi/Fds/Agree.antt =====
-- The descriptor operations of src/ffi.rs beside those that src/preload.rs intercepts.
use vproc.Prelude.{
  ℕ, suc, ◌+◌, ◌-◌, ◌≤◌, ◌≡◌, refl, ◌∙◌, List, ◌∷◌, ◌++◌, true, false, Option, none, some, length,
  modify_at_same, drop, drop-append, drop-drop, length-append, length-drop, arith, Option-cases,
  inl, inr,
}
use vproc.Prelude.Int.{ℤ, minus_one, is_negative}
use vproc.Prelude.Assoc.{lookup}
use vproc.Coroutine.{VPid}
use vproc.Executor.{Executor}
use vproc.Vfd.Pipe
use vproc.Vfd.Pipe.{PipeBuffer}
use vproc.Vfd.Table
use vproc.Vfd.Table.{ebadf, Vfd, real, file, pipe_read, pipe_write, VfdTable, get}
use vproc.Vfd.Tables.{FdTables, get_table}
use vproc.Preload.Host.{Kernel, Host, Mode, passes, as_u32}
use vproc.Preload.Fds.{close, close_in, real_close}
use vproc.Preload.Pipes.{
  Turn, returns, fails, yields, exits, read_end, write_end, read_round, write_round, buffer,
  put_buffer,
}
use vproc.Ffi.Fds.{vproc_ffi_read, vproc_ffi_write, vproc_ffi_get_cwd, vproc_ffi_close}

-- What the C function returns for a round of the intercepted one: -1 where that fails, waits or
-- ends the process.
unfoldable pub result_of : Turn → ℤ
result_of (returns n) = n
result_of (fails e) = minus_one
result_of yields = minus_one
result_of (exits code) = minus_one

read_negative :
    (b : PipeBuffer) (dst : List ℕ)
    → is_negative (Pipe.read_from b dst).0 ≡ true
    → Pipe.read_from b dst ≡ (minus_one, dst, b)
unfolding Pipe.read_from
read_negative b dst h = ground arith

write_negative :
    (b : PipeBuffer) (src : List ℕ)
    → is_negative (Pipe.write_to b src).0 ≡ true
    → Pipe.write_to b src ≡ (minus_one, b)
unfolding Pipe.write_to
write_negative b src h = ground arith

-- Putting a buffer back that has not changed changes nothing.
put_buffer_same :
    (s : FdTables) (e : Option ℕ) {p : ℕ} {b : PipeBuffer}
    → buffer s e ≡ some (p, b)
    → put_buffer p b s ≡ s
put_buffer_same s none h = cc
put_buffer_same s (some q) {p = p} {b = b} h = ground (arith, modify_at_same s.pipes p b)

-- The C function for reading does what one round of the intercepted `read` does, with -1 where that
-- fails or waits.
pub vproc_ffi_read-read_round :
    (s : FdTables) (vpid : VPid) (fd : ℤ) (dst : List ℕ)
    → let (turn, dst', s') = read_round s vpid (as_u32 fd) dst in
      vproc_ffi_read s vpid fd dst ≡ (result_of turn, dst', s')
unfolding vproc_ffi_read read_round result_of
vproc_ffi_read-read_round s vpid fd dst =
    elim (Option-cases (buffer s (read_end s vpid (as_u32 fd)))) [
      | inl absent ↦ ground (arith, absent)
      | inr (found, e) ↦
          ground
            (arith, e, read_negative found.1 dst, put_buffer_same s (read_end s vpid (as_u32 fd)) e)
    ]

-- The C function for writing does what one round of the intercepted `write` does, with -1 where that
-- fails, waits, or ends the process for a closed pipe.
pub vproc_ffi_write-write_round :
    (s : FdTables) (vpid : VPid) (fd : ℤ) (src : List ℕ)
    → let (turn, s') = write_round s vpid (as_u32 fd) src in
      vproc_ffi_write s vpid fd src ≡ (result_of turn, s')
unfolding vproc_ffi_write write_round result_of
vproc_ffi_write-write_round s vpid fd src =
    elim (Option-cases (buffer s (write_end s vpid (as_u32 fd)))) [
      | inl absent ↦ ground (arith, absent)
      | inr (found, e) ↦
          ground (
            arith,
            e,
            write_negative found.1 src,
            put_buffer_same s (write_end s vpid (as_u32 fd)) e,
          )
    ]

written_fits :
    (cwd buf : List ℕ) (size : ℕ)
    → length cwd + 1 ≤ size
    → size ≤ length buf
    → let buf' = cwd ++ 0 ∷ drop (length cwd + 1) buf in
      (length buf' ≡ length buf) × (drop size buf' ≡ drop size buf)
written_fits cwd buf size room fits = (
  omega
      (arith, length-append cwd (0 ∷ drop (length cwd + 1) buf), length-drop (length cwd + 1) buf),
  past,
)
  where
    rest : ℕ
    rest = size - length cwd - 1

    past : drop size (cwd ++ 0 ∷ drop (length cwd + 1) buf) ≡ drop size buf
    past =
        let at : size - length cwd ≡ suc rest = omega arith in
        let all : rest + (length cwd + 1) ≡ size = omega arith in
        drop-append size cwd (0 ∷ drop (length cwd + 1) buf) (omega arith)
        ∙ rw at (rw (drop-drop rest (length cwd + 1) buf) (rw all refl))

-- Where the caller's buffer has the `size` bytes it names, `vproc_ffi_get_cwd` keeps its length and
-- every byte from `size` on: it writes nothing outside.
pub vproc_ffi_get_cwd_fits :
    (ex : Executor) (vpid : VPid) (buf : List ℕ) (size : ℕ)
    → size ≤ length buf
    → let buf' = (vproc_ffi_get_cwd ex vpid buf size).1 in
      (length buf' ≡ length buf) × (drop size buf' ≡ drop size buf)
unfolding vproc_ffi_get_cwd
vproc_ffi_get_cwd_fits ex vpid buf size fits = elim (Option-cases (lookup vpid ex.vprocs)) [
  | inl absent ↦ ground (arith, absent)
  | inr (co, found) ↦ elim (Option-cases co.cwd) [
    | inl unset ↦ ground (arith, found, unset)
    | inr (cwd, dir) ↦ ground (arith, found, dir, written_fits cwd buf size)
  ]
]

-- For an open descriptor of a process, the C function for closing and the intercepted `close`, when
-- that process runs, return the same and leave the same tables and kernel behind.
pub vproc_ffi_close-close {ℓ} :
    {K : Type ℓ} (sys : Kernel K) (mode : Mode) (vpid : VPid) (t : VfdTable) (vfd : Vfd) (fd : ℤ)
    (h : Host K)
    → passes mode ≡ false
    → is_negative fd ≡ false
    → h.executor.current ≡ some vpid
    → get_table h.fds vpid ≡ some t
    → get t (as_u32 fd) ≡ some vfd
    → let (ret, s, k) =
        vproc_ffi_close (λ real_fd k. (sys.close_fd real_fd k).1) h.fds vpid fd h.kernel in
      close sys mode fd h ≡ (ret, record h { fds = s; kernel = k })
unfolding vproc_ffi_close close close_in Table.close get_table get real_close
vproc_ffi_close-close sys mode vpid t vfd fd h on pos_fd cur found held = ground arith
