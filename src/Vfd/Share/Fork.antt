-- ===== src/Vfd/Share/Fork.antt =====
-- `clone_for_fork`: the child sees what the parent sees.
use vproc.Prelude.{ℕ, ◌≡◌, refl, [], ◌∷◌, arith, if◌then◌else◌, is_some}
use vproc.Prelude.Assoc.{Assoc, lookup, insert, lookup-insert}
use vproc.Prelude.Assoc.Distinct.{Distinct, insert-Distinct}
use vproc.Vfd.Table.{Vfd, VfdTable, get}
use vproc.Vfd.Table.Alloc.{IsValid}
use vproc.Vfd.Share.{clone_vfd, clone_into, clone_for_fork}
use vproc.Vfd.Share.Dup.{clone_vfd_lem}

-- The loop overlays the map by the entries, the first of each key winning as each occurs once.
clone_into_reads :
    (fds cloned : Assoc Vfd) (j : ℕ)
    → Distinct fds
    → lookup j (clone_into fds cloned)
      ≡ (if is_some (lookup j fds) then lookup j fds else lookup j cloned)
unfolding clone_into lookup
clone_into_reads [] cloned j d = refl
clone_into_reads ((k, vfd) ∷ fds) cloned j d = ground (
  arith,
  clone_into_reads fds (insert k (clone_vfd vfd) cloned) j d.1,
  clone_vfd_lem vfd,
  lookup-insert k j (clone_vfd vfd) cloned,
)

clone_into-Distinct : (fds cloned : Assoc Vfd) → Distinct cloned → Distinct (clone_into fds cloned)
unfolding clone_into
clone_into-Distinct [] cloned d = d
clone_into-Distinct ((k, vfd) ∷ fds) cloned d =
    clone_into-Distinct fds (insert k (clone_vfd vfd) cloned)
      (insert-Distinct k (clone_vfd vfd) cloned d)

-- The clone of a valid table is valid, reads the same at every descriptor, and hands out the same
-- descriptor next.
pub clone_for_fork_reads :
    (t : VfdTable)
    → IsValid t
    → let child = clone_for_fork t in
      ((j : ℕ) → get child j ≡ get t j) × (child.next_fd ≡ t.next_fd) × IsValid child
unfolding clone_for_fork get lookup
clone_for_fork_reads t v = (
  λ j. ground (arith, clone_into_reads t.fds [] j v.distinct),
  refl,
  record {
    fresh = ground (arith, clone_into_reads t.fds [] t.next_fd v.distinct);
    next_in = v.next_in;
    distinct = clone_into-Distinct t.fds [] tt;
  },
)
