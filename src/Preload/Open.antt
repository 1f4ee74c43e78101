-- ===== src/Preload/Open.antt =====
-- `open`, `openat`, `creat`, `fstat`, `lseek` and `getcwd` of src/preload.rs. A path is the list of
-- the bytes before its zero, and its bytes are UTF-8.
pub mod Restores
use vproc.Prelude.{
  ℕ, ◌+◌, ◌/◌, ◌%◌, ◌^◌, List, ◌∷◌, ◌++◌, Bool, false, Option, none, some, ltb, ◌==◌, length, drop,
  contains, if◌then◌else◌, Result, ok, err,
}
use vproc.Prelude.Int.{ℤ, pos, negsuc, minus_one, is_negative, ◌==ℤ◌}
use vproc.Prelude.Assoc.{lookup}
use vproc.Executor.{Executor}
use vproc.Vfd.Table.{Vfd, real, file, VfdTable, ebadf, get, insert_file}
use vproc.Vfd.Tables.{FdTables, get_table, get_or_create_table}
use vproc.Preload.Host.{Host, Mode, passes, as_u32, as_c_int, update_table}
use vproc.Preload.Paths.{resolve_path, starts_with_slash}

-- The calls of the real C library: the path, then the flags, then the mode.
pub record OpenCalls {ℓ} (K : Type ℓ) : Type ℓ where
  pub open_path : List ℕ → ℤ → ℤ → K → ℤ × K
  pub open_at : ℤ → List ℕ → ℤ → ℤ → K → ℤ × K
  pub create : List ℕ → ℤ → K → ℤ × K

abbrev pub einval : ℕ
einval = 22

abbrev pub espipe : ℕ
espipe = 29

abbrev pub erange : ℕ
erange = 34

-- `AT_FDCWD` is -100.
abbrev pub at_fdcwd : ℤ
at_fdcwd = negsuc 99

-- `flags & libc::O_CLOEXEC`, which is 0o2000000.
abbrev pub has_cloexec : ℤ → Bool
has_cloexec flags = as_u32 flags / 2 ^ 19 % 2 == 1

unfoldable pub get_cwd : Executor → Option (List ℕ)
get_cwd ex = elim ex.current [
  | none ↦ none
  | some vpid ↦ elim (lookup vpid ex.vprocs) [ none ↦ none | some c ↦ c.cwd ]
]

-- The path that is opened: `CString::new` refuses one with a zero byte.
unfoldable pub path_for : Option (List ℕ) → List ℕ → Result ℕ (List ℕ)
unfolding resolve_path
path_for none path = ok path
path_for (some cwd) path =
    let resolved = resolve_path cwd path in
    if starts_with_slash path
    then ok path
    else (if contains 0 resolved then err einval else ok resolved)

abbrev pub fail_with {ℓ} : {K : Type ℓ} → ℕ → Host K → ℤ × Host K
fail_with e h = (minus_one, record h { errno = e })

-- A real call that passes its result on.
abbrev pub passed_on {ℓ} : {K : Type ℓ} → ℤ × K → Host K → ℤ × Host K
passed_on (ret, k) h = (ret, record h { kernel = k })

-- After the real call: a descriptor that was opened goes into the table; `arc` is the number of the
-- new `Arc`.
unfoldable pub insert_opened {ℓ} : {K : Type ℓ} → ℕ → ℕ → Bool → ℤ × K → Host K → ℤ × Host K
unfolding get_or_create_table insert_file
insert_opened vpid arc cloexec (real_fd, k) h =
    let opened = record h { kernel = k } in
    let (t, s) = get_or_create_table h.fds vpid in
    let (fd, t') = insert_file t arc real_fd cloexec in
    if is_negative real_fd
    then (real_fd, opened)
    else (as_c_int fd, record opened { fds = update_table vpid t' s.pipes s })

module _ {ℓ} {K : Type ℓ} (calls : OpenCalls K) where
  unfoldable pub open_file : Mode → ℕ → List ℕ → ℤ → ℤ → Host K → ℤ × Host K
  unfolding path_for insert_opened get_cwd
  open_file mode arc path flags m h =
      let passed = passed_on (calls.open_path path flags m h.kernel) h in
      let virtual : ℤ × Host K = elim h.executor.current [
        | none ↦ passed
        | some vpid ↦ elim (path_for (get_cwd h.executor) path) [
          | err e ↦ fail_with e h
          | ok p ↦ insert_opened vpid arc (has_cloexec flags) (calls.open_path p flags m h.kernel) h
        ]
      ] in
      if passes mode then passed else virtual

  unfoldable pub openat : Mode → ℕ → ℤ → List ℕ → ℤ → ℤ → Host K → ℤ × Host K
  unfolding path_for insert_opened get_cwd
  openat mode arc dirfd path flags m h =
      let passed = passed_on (calls.open_at dirfd path flags m h.kernel) h in
      let cwd = get_cwd h.executor in
      let target : Result ℕ (List ℕ) = if dirfd ==ℤ at_fdcwd then path_for cwd path else ok path in
      let virtual : ℤ × Host K = elim h.executor.current [
        | none ↦ passed
        | some vpid ↦ elim target [
          | err e ↦ fail_with e h
          | ok p ↦
              insert_opened vpid arc (has_cloexec flags) (calls.open_at dirfd p flags m h.kernel) h
        ]
      ] in
      if passes mode then passed else virtual

  unfoldable pub creat : Mode → ℕ → List ℕ → ℤ → Host K → ℤ × Host K
  unfolding insert_opened
  creat mode arc path m h =
      let created = calls.create path m h.kernel in
      let virtual : ℤ × Host K = elim h.executor.current [
        | none ↦ passed_on created h
        | some vpid ↦ insert_opened vpid arc false created h
      ] in
      if passes mode then passed_on created h else virtual

-- The match of `fstat` and `lseek` on the descriptor: the real one, or an `errno`.
unfoldable pub seekable : Option Vfd → Result ℕ ℤ
seekable (some (real r)) = ok r
seekable (some (file arc f)) = ok f.real_fd
seekable (some other) = err espipe
seekable none = err ebadf

module _ {ℓ} {K : Type ℓ} where
  -- What `fstat` and `lseek` share: the real call is on the real descriptor.
  unfoldable pub on_file : (ℤ → K → ℤ × K) → Mode → ℤ → Host K → ℤ × Host K
  unfolding seekable get_table get
  on_file call mode fd h =
      let passed = passed_on (call fd h.kernel) h in
      let virtual : ℤ × Host K = elim h.executor.current [
        | none ↦ passed
        | some vpid ↦ elim (get_table h.fds vpid) [
          | none ↦ passed
          | some t ↦ elim (seekable (get t (as_u32 fd))) [
            | ok r ↦ passed_on (call r h.kernel) h
            | err e ↦ fail_with e h
          ]
        ]
      ] in
      if passes mode then passed else virtual

  -- What the real `fstat` writes is part of the state of the kernel.
  unfoldable pub fstat : (ℤ → K → ℤ × K) → Mode → ℤ → Host K → ℤ × Host K
  unfolding on_file
  fstat stat_fd mode fd h = on_file stat_fd mode fd h

  -- The real call has the descriptor, the offset and `whence`.
  unfoldable pub lseek : (ℤ → ℤ → ℤ → K → ℤ × K) → Mode → ℤ → ℤ → ℤ → Host K → ℤ × Host K
  unfolding on_file
  lseek seek_fd mode fd offset whence h = on_file (λ r. seek_fd r offset whence) mode fd h

  -- The contents of `buf` after the call, or `none` for a null pointer; `real_getcwd` has `buf` and
  -- `size`.
  unfoldable pub getcwd :
      (List ℕ → ℕ → K → Option (List ℕ) × K) → Mode → List ℕ → ℕ → Host K → Option (List ℕ) × Host K
  unfolding get_cwd
  getcwd real_getcwd mode buf size h =
      let (ret, k) = real_getcwd buf size h.kernel in
      let passed : Option (List ℕ) × Host K = (ret, record h { kernel = k }) in
      let virtual : Option (List ℕ) × Host K = elim (get_cwd h.executor) [
        | none ↦ passed
        | some bytes ↦
            if ltb size (length bytes + 1)
            then (none, record h { errno = erange })
            else (some (bytes ++ 0 ∷ drop (length bytes + 1) buf), h)
      ] in
      if passes mode then passed else virtual
