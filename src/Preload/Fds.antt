-- ===== src/Preload/Fds.antt =====
-- `close`, `dup` and `dup2` of src/preload.rs.
pub mod Close
pub mod Clobber
use vproc.Prelude.{
  ℕ, ◌+◌, List, [], ◌∷◌, Bool, true, false, Option, none, some, if◌then◌else◌, Result, ok, err,
}
use vproc.Prelude.Int.{ℤ, pos, negsuc, minus_one, is_negative}
use vproc.Prelude.Assoc.{lookup}
use vproc.Vfd.Table
use vproc.Vfd.Table.{
  Vfd, real, file, pipe_read, pipe_write, FileRef, VfdTable, ebadf, get, close_file_fd, insert_vfd,
  insert_at,
}
use vproc.Vfd.Share
use vproc.Vfd.Tables.{FdTables, get_table}
use vproc.Preload.Host.{Kernel, Host, Mode, passes, as_u32, as_c_int, update_table}

-- `*libc::__errno() = libc::EBADF; return -1;`
abbrev pub fail_ebadf {ℓ} : {K : Type ℓ} → Host K → ℤ × Host K
fail_ebadf h = (minus_one, record h { errno = ebadf })

-- The real descriptor behind a `Real` or a `File`.
abbrev pub underlying_real : Option Vfd → Option ℤ
underlying_real (some (real r)) = some r
underlying_real (some (file arc f)) = some f.real_fd
underlying_real other = none

module _ {ℓ} {K : Type ℓ} (sys : Kernel K) where
  unfoldable pub real_close : ℤ → Host K → ℤ × Host K
  real_close fd h = let (ret, k) = sys.close_fd fd h.kernel in (ret, record h { kernel = k })

  -- `close` in the table of the running process.
  unfoldable pub close_in : ℕ → VfdTable → ℤ → Host K → ℤ × Host K
  unfolding real_close Table.close close_file_fd get
  close_in vpid t fd h =
      let (result, t', pipes') = Table.close t (as_u32 fd) h.fds.pipes in
      let closed_host = record h { fds = update_table vpid t' pipes' h.fds } in
      let (last, t'') = close_file_fd t (as_u32 fd) in
      let file_host = record h { fds = update_table vpid t'' h.fds.pipes h.fds } in
      elim (get t (as_u32 fd)) [
        | none ↦ real_close fd h
        | some (real r) ↦ (pos 0, closed_host)
        | some (file arc f) ↦ elim last [
          | none ↦ (pos 0, file_host)
          | some real_fd ↦ (pos 0, (real_close real_fd file_host).1)
        ]
        | some other ↦ elim result [ ok u ↦ (pos 0, closed_host) | err e ↦ fail_ebadf closed_host ]
      ]

  unfoldable pub close : Mode → ℤ → Host K → ℤ × Host K
  unfolding close_in
  close mode fd h =
      let in_table : ℤ × Host K = elim h.executor.current [
        | none ↦ real_close fd h
        | some vpid ↦ elim (get_table h.fds vpid) [
          | none ↦ real_close fd h
          | some t ↦ close_in vpid t fd h
        ]
      ] in
      if passes mode then real_close fd h else (if is_negative fd then fail_ebadf h else in_table)

  -- `dup` in the table of the running process; `arc` is the number of the new `Arc`.
  unfoldable pub dup_in : ℕ → VfdTable → ℕ → ℤ → Host K → ℤ × Host K
  unfolding insert_vfd Share.dup
  dup_in vpid t arc old_fd h = elim (underlying_real (get t (as_u32 old_fd))) [
    | some real_fd ↦
        let (new_real, k) = sys.dup_fd real_fd h.kernel in
        let duplicated = record h { kernel = k } in
        let ref : FileRef = record { real_fd = new_real; cloexec = false } in
        let (new_fd, t') = insert_vfd t (file arc ref) in
        if is_negative new_real
        then fail_ebadf duplicated
        else (as_c_int new_fd, record duplicated { fds = update_table vpid t' h.fds.pipes h.fds })
    | none ↦
        let (result, t', pipes') = Share.dup t (as_u32 old_fd) h.fds.pipes in
        let h' = record h { fds = update_table vpid t' pipes' h.fds } in
        elim result [ ok new_fd ↦ (as_c_int new_fd, h') | err e ↦ fail_ebadf h' ]
  ]

  unfoldable pub real_dup : ℤ → Host K → ℤ × Host K
  real_dup fd h = let (ret, k) = sys.dup_fd fd h.kernel in (ret, record h { kernel = k })

  unfoldable pub dup : Mode → ℕ → ℤ → Host K → ℤ × Host K
  unfolding dup_in real_dup
  dup mode arc old_fd h =
      let in_table : ℤ × Host K = elim h.executor.current [
        | none ↦ real_dup old_fd h
        | some vpid ↦ elim (get_table h.fds vpid) [
          | none ↦ real_dup old_fd h
          | some t ↦ dup_in vpid t arc old_fd h
        ]
      ] in
      if passes mode then real_dup old_fd h else in_table

  -- `dup2` in the table of the running process.
  unfoldable pub dup2_in : ℕ → VfdTable → ℕ → ℤ → ℤ → Host K → ℤ × Host K
  unfolding insert_at Share.dup2
  dup2_in vpid t arc old_fd new_fd h = elim (underlying_real (get t (as_u32 old_fd))) [
    | some real_fd ↦
        let (ret, k) = sys.dup2_fd real_fd new_fd h.kernel in
        let duplicated = record h { kernel = k } in
        let ref : FileRef = record { real_fd = new_fd; cloexec = false } in
        let (t', pipes') = insert_at t (as_u32 new_fd) (file arc ref) h.fds.pipes in
        if is_negative ret
        then fail_ebadf duplicated
        else (new_fd, record duplicated { fds = update_table vpid t' pipes' h.fds })
    | none ↦
        let (result, t', pipes') = Share.dup2 t (as_u32 old_fd) (as_u32 new_fd) h.fds.pipes in
        let h' = record h { fds = update_table vpid t' pipes' h.fds } in
        elim result [ ok fd ↦ (as_c_int fd, h') | err e ↦ fail_ebadf h' ]
  ]

  unfoldable pub real_dup2 : ℤ → ℤ → Host K → ℤ × Host K
  real_dup2 old_fd new_fd h =
      let (ret, k) = sys.dup2_fd old_fd new_fd h.kernel in (ret, record h { kernel = k })

  unfoldable pub dup2 : Mode → ℕ → ℤ → ℤ → Host K → ℤ × Host K
  unfolding dup2_in real_dup2
  dup2 mode arc old_fd new_fd h =
      let in_table : ℤ × Host K = elim h.executor.current [
        | none ↦ real_dup2 old_fd new_fd h
        | some vpid ↦ elim (get_table h.fds vpid) [
          | none ↦ real_dup2 old_fd new_fd h
          | some t ↦ dup2_in vpid t arc old_fd new_fd h
        ]
      ] in
      if passes mode then real_dup2 old_fd new_fd h else in_table
