-- ===== src/Ffi/Fds.antt =====
-- The descriptor operations of src/ffi.rs, on the table of the process that the caller names. The
-- buffers that the caller lends are lists of bytes.
pub mod Agree
use vproc.Prelude.{
  ℕ, ◌+◌, List, [], ◌∷◌, ◌++◌, Bool, true, false, Option, none, some, if◌then◌else◌, ltb, length,
  drop, ok, err,
}
use vproc.Prelude.Int.{ℤ, pos, negsuc, minus_one}
use vproc.Prelude.Assoc.{lookup}
use vproc.Coroutine.{VPid, Coroutine}
use vproc.Executor.{Executor}
use vproc.Vfd.Pipe
use vproc.Vfd.Pipe.{PipeBuffer}
use vproc.Vfd.Table
use vproc.Vfd.Table.{Vfd, real, file, pipe_read, pipe_write, VfdTable, get, close_file_fd}
use vproc.Vfd.Share
use vproc.Vfd.Tables.{FdTables, get_table, get_or_create_table}
use vproc.Preload.Host.{as_u32, as_c_int, update_table}
use vproc.Preload.Pipes.{read_end, write_end, buffer, put_buffer}

-- The two descriptors, and the tables.
unfoldable pub vproc_ffi_pipe : FdTables → VPid → (ℤ × ℤ) × FdTables
unfolding get_or_create_table Share.create_pipe
vproc_ffi_pipe s vpid =
    let (table, s') = get_or_create_table s vpid in
    let ((read_fd, write_fd), table', pipes) = Share.create_pipe table s'.pipes in
    ((as_c_int read_fd, as_c_int write_fd), update_table vpid table' pipes s')

unfoldable pub vproc_ffi_is_virtual_fd : FdTables → VPid → ℤ → ℤ
unfolding get_table get
vproc_ffi_is_virtual_fd s vpid fd = elim (get_table s vpid) [
  | none ↦ pos 0
  | some t ↦ elim (get t (as_u32 fd)) [ none ↦ pos 0 | some (real r) ↦ pos 0 | some other ↦ pos 1 ]
]

-- The result, the contents of `buf`, and the tables.
unfoldable pub vproc_ffi_read : FdTables → VPid → ℤ → List ℕ → ℤ × List ℕ × FdTables
vproc_ffi_read s vpid fd dst = elim (buffer s (read_end s vpid (as_u32 fd))) [
  | none ↦ (minus_one, dst, s)
  | some (p, pipe_buf) ↦
      let (n, dst', pipe_buf') = Pipe.read_from pipe_buf dst in (n, dst', put_buffer p pipe_buf' s)
]

unfoldable pub vproc_ffi_write : FdTables → VPid → ℤ → List ℕ → ℤ × FdTables
vproc_ffi_write s vpid fd src = elim (buffer s (write_end s vpid (as_u32 fd))) [
  | none ↦ (minus_one, s)
  | some (p, pipe_buf) ↦
      let (n, pipe_buf') = Pipe.write_to pipe_buf src in (n, put_buffer p pipe_buf' s)
]

unfoldable pub vproc_ffi_pipe_is_closed : FdTables → VPid → ℤ → ℤ
vproc_ffi_pipe_is_closed s vpid fd = elim (buffer s (write_end s vpid (as_u32 fd))) [
  | none ↦ pos 0
  | some (p, pipe_buf) ↦ if Pipe.is_closed pipe_buf then pos 1 else pos 0
]

unfoldable pub vproc_ffi_dup : FdTables → VPid → ℤ → ℤ × FdTables
unfolding get_table Share.dup
vproc_ffi_dup s vpid old_fd = elim (get_table s vpid) [
  | none ↦ (minus_one, s)
  | some t ↦
      let (result, t', pipes) = Share.dup t (as_u32 old_fd) s.pipes in
      let s' = update_table vpid t' pipes s in
      elim result [ ok fd ↦ (as_c_int fd, s') | err e ↦ (minus_one, s') ]
]

unfoldable pub vproc_ffi_dup2 : FdTables → VPid → ℤ → ℤ → ℤ × FdTables
unfolding get_table Share.dup2
vproc_ffi_dup2 s vpid old_fd new_fd = elim (get_table s vpid) [
  | none ↦ (minus_one, s)
  | some t ↦
      let (result, t', pipes) = Share.dup2 t (as_u32 old_fd) (as_u32 new_fd) s.pipes in
      let s' = update_table vpid t' pipes s in
      elim result [ ok fd ↦ (as_c_int fd, s') | err e ↦ (minus_one, s') ]
]

-- The result and the contents of `buf`, of which `size` bytes are the caller's. A null executor
-- pointer acts as an executor without processes.
unfoldable pub vproc_ffi_get_cwd : Executor → VPid → List ℕ → ℕ → ℤ × List ℕ
vproc_ffi_get_cwd ex vpid buf size = elim (lookup vpid ex.vprocs) [
  | none ↦ (minus_one, buf)
  | some co ↦ elim co.cwd [
    | none ↦ (minus_one, buf)
    | some cwd ↦
        if ltb size (length cwd + 1)
        then (minus_one, buf)
        else (pos 0, cwd ++ 0 ∷ drop (length cwd + 1) buf)
  ]
]

module _ {ℓ} {K : Type ℓ} (real_close : ℤ → K → K) where
  -- `real_close` is the C library's `close`, whose result is not looked at.
  unfoldable pub vproc_ffi_close : FdTables → VPid → ℤ → K → ℤ × FdTables × K
  unfolding get_table get Table.close close_file_fd
  vproc_ffi_close s vpid fd k = elim (get_table s vpid) [
    | none ↦ (minus_one, s, k)
    | some t ↦
        let (last, rest) = close_file_fd t (as_u32 fd) in
        let (result, t', pipes) = Table.close t (as_u32 fd) s.pipes in
        let s' = update_table vpid t' pipes s in
        elim (get t (as_u32 fd)) [
          | some (file arc f) ↦
              let file_s = update_table vpid rest s.pipes s in
              elim last [
                | none ↦ (pos 0, file_s, k)
                | some real_fd ↦ (pos 0, file_s, real_close real_fd k)
              ]
          | other ↦ elim result [ ok u ↦ (pos 0, s', k) | err e ↦ (minus_one, s', k) ]
        ]
  ]
