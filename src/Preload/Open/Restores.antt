-- ===== src/Preload/Open/Restores.antt =====
-- `open` and then `close` of the descriptor that it returned.
use vproc.Prelude.{
  ℕ, ◌^◌, ◌<◌, ◌≡◌, refl, sym, List, false, Option, none, some, ◌==◌, arith, if◌then◌else◌, ok,
}
use mathlib.Core.Path.{subst}
use vproc.Prelude.Int.{ℤ, pos, is_negative}
use vproc.Prelude.Assoc.{lookup-insert}
use vproc.Vfd.Table.{Vfd, file, VfdTable, get, refers_to_file, insert_file}
use vproc.Vfd.Table.Alloc.{IsValid, HasRoom}
use vproc.Vfd.Table.Insert.{Adds, insert_file-Adds}
use vproc.Vfd.Table.Close.{Other}
use vproc.Vfd.Tables.{get_table, get_or_create_table}
use vproc.Preload.Host.{Kernel, Host, Mode, passes, as_c_int, as_u32, update_table}
use vproc.Preload.Fds
use vproc.Preload.Fds.Close.{Without, Closes, close_lem}
use vproc.Preload.Open.{OpenCalls, has_cloexec, get_cwd, path_for, insert_opened, open_file}

-- No descriptor of the table holds the `Arc`.
abbrev pub Unheld : ℕ → VfdTable → Type 0
Unheld arc t = (j : ℕ) (other : Vfd) → get t j ≡ some other → refers_to_file arc other ≡ false

-- A table that reads as `t`.
abbrev pub ReadsAs : VfdTable → Option VfdTable → Type 0
ReadsAs t none = ⊥
ReadsAs t (some t') = (j : ℕ) → get t' j ≡ get t j

Without-ReadsAs :
    (n : ℕ) (vfd : Vfd) (t t' : VfdTable) (out : Option VfdTable)
    → get t n ≡ none
    → ((j : ℕ) → get t' j ≡ (if n == j then some vfd else get t j))
    → Without n t' out
    → ReadsAs t out
Without-ReadsAs n vfd t t' none free reads = λ without. without
Without-ReadsAs n vfd t t' (some t'') free reads = λ without j. ground (arith, without j, reads j)

same_u32 : (n : ℕ) → n < 2 ^ 32 → as_u32 (pos n) ≡ n
unfolding as_u32
same_u32 n small = omega (arith, small)

module _ {ℓ} {K : Type ℓ} (calls : OpenCalls K) (sys : Kernel K) where
  module _ (mode : Mode) (vpid arc : ℕ) (t : VfdTable) (path p : List ℕ) (flags m : ℤ)
      (h : Host K) where
    abbrev opening : ℤ × K
    opening = calls.open_path p flags m h.kernel

    abbrev added : ℕ × VfdTable
    added = insert_file t arc opening.0 (has_cloexec flags)

    abbrev opened : Host K
    opened = record h { kernel = opening.1; fds = update_table vpid added.1 h.fds.pipes h.fds }

    open_file-opened :
        passes mode ≡ false
        → h.executor.current ≡ some vpid
        → get_table h.fds vpid ≡ some t
        → t.next_fd < 2 ^ 31
        → path_for (get_cwd h.executor) path ≡ ok p
        → is_negative opening.0 ≡ false
        → open_file calls mode arc path flags m h ≡ (pos t.next_fd, opened)
    unfolding open_file insert_opened get_or_create_table get_table as_c_int insert_file
    open_file-opened virtual running there small resolved fine = ground arith

    abbrev entry : Vfd
    entry = file arc (record { real_fd = opening.0; cloexec = has_cloexec flags })

    adds : IsValid t → HasRoom t → Adds t entry added
    adds v room = insert_file-Adds t arc opening.0 (has_cloexec flags) v room

    same_fd : added.0 ≡ t.next_fd
    unfolding insert_file
    same_fd = refl

    lookup_opened : get_table opened.fds vpid ≡ some added.1
    unfolding get_table
    lookup_opened = ground (arith, lookup-insert vpid vpid added.1 h.fds.tables)

    -- The result 0, the real descriptor closed, and the table as it was.
    abbrev Restored : ℤ × Host K → Type ℓ
    Restored (ret, h'') =
        (ret ≡ pos 0)
        × (h''.kernel ≡ (sys.close_fd opening.0 opening.1).1)
        × ReadsAs t (get_table h''.fds vpid)

    free_fd : IsValid t → t.next_fd < 2 ^ 31 → get t (as_u32 (pos t.next_fd)) ≡ none
    unfolding get
    free_fd v small =
        let own : as_u32 (pos t.next_fd) ≡ t.next_fd = same_u32 t.next_fd (omega arith) in
        rw own v.fresh

    lone :
        IsValid t
        → HasRoom t
        → Unheld arc t
        → (j : ℕ) (other : Vfd) → ¬ Other (refers_to_file arc) added.1 t.next_fd j other
    lone v room unheld j other (ne, found, holds) =
        let before : get t j ≡ some other = ground (arith, (adds v room).reads j, same_fd) in
        absurd (ground (arith, unheld j other before))

    Closes-Restored :
        (out : ℤ × Host K)
        → IsValid t
        → HasRoom t
        → Unheld arc t
        → Closes sys t.next_fd vpid added.1 entry opened out
        → Restored out
    unfolding insert_file
    Closes-Restored (ret, h'') v room unheld (zeroed, without, (shared, last)) = (
      zeroed,
      last (lone v room unheld),
      Without-ReadsAs t.next_fd entry t added.1 (get_table h''.fds vpid) (adds v room).free
          (adds v room).reads without,
    )

    -- Where the running process has a valid table with room left, whose next descriptor is below 2^31, the
    -- path is accepted, the `Arc` is new and the real `open` succeeds, the descriptor that `open` returns
    -- was free, and `close` of it returns 0, closes the real descriptor that was opened, and leaves
    -- the table reading as it did before.
    pub open_close :
        passes mode ≡ false
        → h.executor.current ≡ some vpid
        → get_table h.fds vpid ≡ some t
        → IsValid t
        → HasRoom t
        → t.next_fd < 2 ^ 31
        → Unheld arc t
        → path_for (get_cwd h.executor) path ≡ ok p
        → is_negative opening.0 ≡ false
        → let (fd, h') = open_file calls mode arc path flags m h in
          let (ret, h'') = Fds.close sys mode fd h' in
          (get t (as_u32 fd) ≡ none)
          × (ret ≡ pos 0)
          × (h''.kernel ≡ (sys.close_fd opening.0 opening.1).1)
          × ReadsAs t (get_table h''.fds vpid)
    open_close virtual running there v room small unheld resolved fine =
        let there' : get_table opened.fds vpid ≡ some added.1 = lookup_opened in
        let found : get added.1 t.next_fd ≡ some entry =
          ground (arith, (adds v room).reads t.next_fd, same_fd) in
        let closing : Closes sys t.next_fd vpid added.1 entry opened
            (Fds.close sys mode (pos t.next_fd) opened) =
          close_lem sys mode t.next_fd vpid added.1 entry opened virtual running there'
            (omega arith) (adds v room).valid.distinct found in
        let done =
          subst
            (λ (out : ℤ × Host K).
              (get t (as_u32 out.0) ≡ none) × Restored (Fds.close sys mode out.0 out.1))
            (sym (open_file-opened virtual running there small resolved fine))
            (
              free_fd v small,
              Closes-Restored (Fds.close sys mode (pos t.next_fd) opened) v room unheld closing,
            ) in
        (done.0, done.1.0, done.1.1, done.1.2)
