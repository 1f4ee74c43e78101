-- ===== src/Preload/Fds/Clobber.antt =====
-- The intercepted `dup2` and the descriptors of other processes.
use vproc.Prelude.{ℕ, ◌≡◌, ◌≢◌, false, Option, some, arith}
use vproc.Prelude.Int.{ℤ, is_negative}
use vproc.Prelude.Assoc.{lookup-insert}
use vproc.Vfd.Table.{file, FileRef, VfdTable, get, insert_at}
use vproc.Vfd.Tables.{get_table}
use vproc.Preload.Host.{Kernel, Host, Mode, passes, as_u32}
use vproc.Preload.Fds
use vproc.Preload.Fds.{dup2_in, underlying_real}

-- `open_file` tells which open file a real descriptor refers to; a `dup2` of the kernel that succeeds
-- makes its second descriptor refer to the open file of the first. Then a `dup2` of the running process
-- from a descriptor with a real one behind it, that of the open file `source_file`, onto `new_fd`, where
-- the call of the kernel succeeds, leaves the tables of all other processes as they were; but where
-- another process has a `File` whose real descriptor is `new_fd` and that refers to another open file,
-- its entry now refers to `source_file`, and no more to its own.
pub dup2_clobbers {ℓ} :
    {K : Type ℓ} (sys : Kernel K) (open_file : ℤ → K → Option ℕ) (mode : Mode) (vpid victim arc : ℕ)
    (old_fd new_fd source : ℤ) (source_file : ℕ) (t t' : VfdTable) (j arc' : ℕ) (f : FileRef)
    (h : Host K)
    → ((from to : ℤ) (k : K)
        → is_negative (sys.dup2_fd from to k).0 ≡ false
        → open_file to (sys.dup2_fd from to k).1 ≡ open_file from k)
    → is_negative (sys.dup2_fd source new_fd h.kernel).0 ≡ false
    → passes mode ≡ false
    → h.executor.current ≡ some vpid
    → get_table h.fds vpid ≡ some t
    → underlying_real (get t (as_u32 old_fd)) ≡ some source
    → open_file source h.kernel ≡ some source_file
    → vpid ≢ victim
    → get_table h.fds victim ≡ some t'
    → get t' j ≡ some (file arc' f)
    → f.real_fd ≡ new_fd
    → open_file f.real_fd h.kernel ≢ some source_file
    → let (result, h') = Fds.dup2 sys mode arc old_fd new_fd h in
      (result ≡ new_fd)
      × ((other : ℕ) → vpid ≢ other → get_table h'.fds other ≡ get_table h.fds other)
      × (open_file f.real_fd h'.kernel ≡ some source_file)
      × (open_file f.real_fd h'.kernel ≢ open_file f.real_fd h.kernel)
unfolding Fds.dup2 get_table dup2_in
dup2_clobbers sys open_file mode vpid victim arc old_fd new_fd source source_file t t' j arc' f h
      law success virtual running there backed refers apart there' held same own_file =
    let ref : FileRef = record { real_fd = new_fd; cloexec = false } in
    let t2 = (insert_at t (as_u32 new_fd) (file arc ref) h.fds.pipes).0 in
    let moved = law source new_fd h.kernel success in
    (
      ground arith,
      λ other differ. ground (arith, differ, lookup-insert vpid other t2 h.fds.tables),
      ground (arith, moved, refers),
      λ kept. own_file (ground (arith, kept, moved, refers)),
    )
