-- ===== src/Vfd/Tables/Reclaim.antt =====
-- `remove_table_and_get_fds`: which real descriptors it hands to its caller for closing.
use vproc.Prelude.{
  ℕ, ◌≤◌, ◌≡◌, ◌≢◌, ◌↔◌, ap, contains, List, [], ◌∷◌, Bool, true, false, ◌&&◌, ◌||◌, some, inl, inr,
  arith, ◌==◌, Bool-cases,
}
use mathlib.Core.Bool.{false≢true}
use mathlib.Core.Path.{subst}
use vproc.Prelude.Int.{ℤ, ◌==ℤ◌, ==ℤ_iff}
use vproc.Prelude.Assoc.{Assoc, lookup, any_value}
use vproc.Prelude.Assoc.Distinct.{Distinct, any_value-witness}
use vproc.Vfd.Table.{
  Vfd, real, file, pipe_read, pipe_write, FileRef, VfdTable, get, refers_to_file, real_fd_of,
}
use vproc.Vfd.Tables.Sole.{
  AllDistinct, IsSole, count_in-pos, count_in_two, count_in-le-strong_count, sole_count,
  count-IsSole,
}
use vproc.Vfd.Tables.{
  FdTables, get_table, count_in, strong_count, contains_ℤ, collect_loop, remove_table_and_get_fds,
}

-- An entry whose real descriptor `r` the removed process alone answers for: a `Real` entry, or the
-- only reference to a `File`.
abbrev Owns : Assoc VfdTable → ℤ → Vfd → Type 0
Owns tables r (real x) = x ≡ r
Owns tables r (file arc f) = (f.real_fd ≡ r) × (strong_count arc tables ≡ 1)
Owns tables r (pipe_read p) = ⊥
Owns tables r (pipe_write p) = ⊥

owns : Assoc VfdTable → ℤ → Vfd → Bool
owns tables r (real x) = x ==ℤ r
owns tables r (file arc f) = (f.real_fd ==ℤ r) && (strong_count arc tables == 1)
owns tables r (pipe_read p) = false
owns tables r (pipe_write p) = false

owns→Owns :
    (tables : Assoc VfdTable) (r : ℤ) (vfd : Vfd) → owns tables r vfd ≡ true → Owns tables r vfd
unfolding owns
owns→Owns tables r (real x) h = (==ℤ_iff x r).0 h
owns→Owns tables r (file arc f) h = (ground (arith, (==ℤ_iff f.real_fd r).0), ground arith)
owns→Owns tables r (pipe_read p) h = absurd (false≢true h)
owns→Owns tables r (pipe_write p) h = absurd (false≢true h)

collect_loop_sound :
    (tables : Assoc VfdTable) (fds : Assoc Vfd) (seen_real : List ℤ) (seen_file : List ℕ) (r : ℤ)
    → contains_ℤ r (collect_loop tables fds seen_real seen_file) ≡ true
    → any_value (owns tables r) fds ≡ true
unfolding collect_loop owns
collect_loop_sound tables [] sr sf r h = h
collect_loop_sound tables ((fd, real x) ∷ fds) sr sf r h =
    ground
      (arith, collect_loop_sound tables fds sr sf r, collect_loop_sound tables fds (x ∷ sr) sf r)
collect_loop_sound tables ((fd, file arc f) ∷ fds) sr sf r h =
    ground
      (arith, collect_loop_sound tables fds sr sf r, collect_loop_sound tables fds sr (arc ∷ sf) r)
collect_loop_sound tables ((fd, pipe_read p) ∷ fds) sr sf r h =
    collect_loop_sound tables fds sr sf r h
collect_loop_sound tables ((fd, pipe_write p) ∷ fds) sr sf r h =
    collect_loop_sound tables fds sr sf r h

-- What is handed out stood in the table.
reclaimed_owned_sound :
    (s : FdTables) (vpid : ℕ) (t : VfdTable) (r : ℤ)
    → get_table s vpid ≡ some t
    → Distinct t.fds
    → contains_ℤ r (remove_table_and_get_fds s vpid).0 ≡ true
    → (fd : ℕ) × (vfd : Vfd) × (get t fd ≡ some vfd) × Owns s.tables r vfd
unfolding get_table get remove_table_and_get_fds
reclaimed_owned_sound s vpid t r h d c =
    let found : any_value (owns s.tables r) t.fds ≡ true =
      collect_loop_sound s.tables t.fds [] [] r (rw (h, remove_table_and_get_fds) at c) in
    let (fd, vfd, e, o) = any_value-witness (owns s.tables r) t.fds d found in
    (fd, vfd, e, owns→Owns s.tables r vfd o)

collect_loop_real :
    (tables : Assoc VfdTable) (fds : Assoc Vfd) (seen_real : List ℤ) (seen_file : List ℕ) (r : ℤ)
    (fd : ℕ)
    → lookup fd fds ≡ some (real r)
    → contains_ℤ r seen_real || contains_ℤ r (collect_loop tables fds seen_real seen_file) ≡ true
unfolding collect_loop lookup
collect_loop_real tables [] sr sf r fd h = cc
collect_loop_real tables ((k, real x) ∷ fds) sr sf r fd h = ground (
  arith,
  (==ℤ_iff x r).1,
  collect_loop_real tables fds sr sf r fd,
  collect_loop_real tables fds (x ∷ sr) sf r fd,
)
collect_loop_real tables ((k, file arc f) ∷ fds) sr sf r fd h = ground (
  arith,
  collect_loop_real tables fds sr sf r fd,
  collect_loop_real tables fds sr (arc ∷ sf) r fd,
)
collect_loop_real tables ((k, pipe_read p) ∷ fds) sr sf r fd h =
    ground (arith, collect_loop_real tables fds sr sf r fd)
collect_loop_real tables ((k, pipe_write p) ∷ fds) sr sf r fd h =
    ground (arith, collect_loop_real tables fds sr sf r fd)

-- `remove_table_and_get_fds` hands out the real descriptor of every `Real` entry of the table.
pub real_reclaimed :
    (s : FdTables) (vpid : ℕ) (t : VfdTable) (fd : ℕ) (r : ℤ)
    → get_table s vpid ≡ some t
    → get t fd ≡ some (real r)
    → contains_ℤ r (remove_table_and_get_fds s vpid).0 ≡ true
unfolding get_table get remove_table_and_get_fds
real_reclaimed s vpid t fd r h e =
    rw (h, remove_table_and_get_fds) (collect_loop_real s.tables t.fds [] [] r fd e)

-- The only reference to a `File` is found, unless an entry before it has been counted.
collect_loop_file :
    (tables : Assoc VfdTable) (fds : Assoc Vfd) (seen_real : List ℤ) (seen_file : List ℕ)
    (fd arc : ℕ) (f : FileRef)
    → lookup fd fds ≡ some (file arc f)
    → count_in arc fds ≤ 1
    → strong_count arc tables ≡ 1
    → contains arc seen_file || contains_ℤ f.real_fd (collect_loop tables fds seen_real seen_file)
      ≡ true
unfolding collect_loop lookup count_in refers_to_file
collect_loop_file tables [] sr sf fd arc f h once only = cc
collect_loop_file tables ((k, real x) ∷ fds) sr sf fd arc f h once only = ground (
  arith,
  collect_loop_file tables fds sr sf fd arc f,
  collect_loop_file tables fds (x ∷ sr) sf fd arc f,
)
collect_loop_file tables ((k, file a g) ∷ fds) sr sf fd arc f h once only = ground (
  arith,
  collect_loop_file tables fds sr sf fd arc f,
  collect_loop_file tables fds sr (a ∷ sf) fd arc f,
  count_in-pos arc fd f fds,
  (==ℤ_iff g.real_fd f.real_fd).1,
)
collect_loop_file tables ((k, pipe_read p) ∷ fds) sr sf fd arc f h once only =
    ground (arith, collect_loop_file tables fds sr sf fd arc f)
collect_loop_file tables ((k, pipe_write p) ∷ fds) sr sf fd arc f h once only =
    ground (arith, collect_loop_file tables fds sr sf fd arc f)

-- What an entry of the table owns is handed out.
owned_reclaimed :
    (s : FdTables) (vpid : ℕ) (t : VfdTable) (r : ℤ) (fd : ℕ) (vfd : Vfd)
    → get_table s vpid ≡ some t
    → get t fd ≡ some vfd
    → Owns s.tables r vfd
    → contains_ℤ r (remove_table_and_get_fds s vpid).0 ≡ true
unfolding get_table get remove_table_and_get_fds
owned_reclaimed s vpid t r fd vfd h e o = owned vfd e o
  where
    owned :
        (vfd : Vfd)
        → get t fd ≡ some vfd
        → Owns s.tables r vfd
        → contains_ℤ r (remove_table_and_get_fds s vpid).0 ≡ true
    owned (real x) e o =
        subst (λ y. contains_ℤ y (remove_table_and_get_fds s vpid).0 ≡ true) o
          (real_reclaimed s vpid t fd x h e)
    owned (file arc f) e (same, only) =
        let once : count_in arc t.fds ≤ 1 =
          omega (arith, count_in-le-strong_count arc vpid t s.tables h, only) in
        subst (λ y. contains_ℤ y (remove_table_and_get_fds s vpid).0 ≡ true) same
          (rw (h, remove_table_and_get_fds)
            (collect_loop_file s.tables t.fds [] [] fd arc f e once only))
    owned (pipe_read p) e o = absurd o
    owned (pipe_write p) e o = absurd o

-- The entry at `fd` of the process answers for the real descriptor `r`: a `Real` entry, or a
-- `File` whose `Arc` no other entry of any table holds.
abbrev pub AnswersFor : Assoc VfdTable → ℕ → ℕ → ℤ → Vfd → Type 0
AnswersFor tables vpid fd r (real x) = x ≡ r
AnswersFor tables vpid fd r (file arc f) = (f.real_fd ≡ r) × IsSole tables arc vpid fd
AnswersFor tables vpid fd r (pipe_read p) = ⊥
AnswersFor tables vpid fd r (pipe_write p) = ⊥

Owns→AnswersFor :
    (tables : Assoc VfdTable) (vpid fd : ℕ) (t : VfdTable) (r : ℤ) (vfd : Vfd)
    → lookup vpid tables ≡ some t
    → lookup fd t.fds ≡ some vfd
    → Owns tables r vfd
    → AnswersFor tables vpid fd r vfd
Owns→AnswersFor tables vpid fd t r (real x) h e o = o
Owns→AnswersFor tables vpid fd t r (file arc f) h e (same, one) =
    (same, count-IsSole arc vpid fd f t tables h e one)
Owns→AnswersFor tables vpid fd t r (pipe_read p) h e o = o
Owns→AnswersFor tables vpid fd t r (pipe_write p) h e o = o

AnswersFor→Owns :
    (tables : Assoc VfdTable) (vpid fd : ℕ) (t : VfdTable) (r : ℤ) (vfd : Vfd)
    → Distinct tables
    → AllDistinct tables
    → lookup vpid tables ≡ some t
    → lookup fd t.fds ≡ some vfd
    → AnswersFor tables vpid fd r vfd
    → Owns tables r vfd
unfolding refers_to_file
AnswersFor→Owns tables vpid fd t r (real x) d each h e o = o
AnswersFor→Owns tables vpid fd t r (file arc f) d each h e (same, sole) =
    (same, sole_count arc vpid fd (file arc f) t tables d each h e (ground arith) sole)
AnswersFor→Owns tables vpid fd t r (pipe_read p) d each h e o = o
AnswersFor→Owns tables vpid fd t r (pipe_write p) d each h e o = o

-- Where each process has one table and each table holds a descriptor once,
-- `remove_table_and_get_fds` hands out a real descriptor exactly when it stands in the removed table
-- as a `Real` entry, or as a `File` whose `Arc` no other entry of any table holds. Other entries with
-- the same number, a `Real` or a `File` behind another `Arc`, are not looked at.
pub reclaimed_owned :
    (s : FdTables) (vpid : ℕ) (t : VfdTable) (r : ℤ)
    → get_table s vpid ≡ some t
    → Distinct s.tables
    → AllDistinct s.tables
    → (contains_ℤ r (remove_table_and_get_fds s vpid).0 ≡ true)
      ↔ ((fd : ℕ) × (vfd : Vfd) × (get t fd ≡ some vfd) × AnswersFor s.tables vpid fd r vfd)
unfolding get_table get
reclaimed_owned s vpid t r h d each = (
  λ out.
      let (fd, vfd, e, o) = reclaimed_owned_sound s vpid t r h (each vpid t h) out in
      (fd, vfd, e, Owns→AnswersFor s.tables vpid fd t r vfd h e o),
  λ (fd, vfd, e, a).
      owned_reclaimed s vpid t r fd vfd h e (AnswersFor→Owns s.tables vpid fd t r vfd d each h e a),
)

-- If two descriptors of a table hold one `Arc<FileRef>`, and no other entry of the table stands for
-- the same real descriptor, `remove_table_and_get_fds` does not hand that real descriptor out.
pub dup_leaks :
    (s : FdTables) (vpid : ℕ) (t : VfdTable) (fd fd' arc : ℕ) (f : FileRef)
    → get_table s vpid ≡ some t
    → Distinct t.fds
    → fd ≢ fd'
    → get t fd ≡ some (file arc f)
    → get t fd' ≡ some (file arc f)
    → ((j : ℕ) (vfd : Vfd)
        → get t j ≡ some vfd
        → real_fd_of (some vfd) ≡ some f.real_fd
        → vfd ≡ file arc f)
    → contains_ℤ f.real_fd (remove_table_and_get_fds s vpid).0 ≡ false
unfolding get_table get real_fd_of
dup_leaks s vpid t fd fd' arc f h d ne e e' only =
    elim (Bool-cases (contains_ℤ f.real_fd (remove_table_and_get_fds s vpid).0)) [
      | inl out ↦
          let (j, vfd, found, o) = reclaimed_owned_sound s vpid t f.real_fd h d out in
          absurd (not_owned vfd (only j vfd found (owned_real vfd o)) o)
      | inr kept ↦ kept
    ]
  where
    owned_real : (vfd : Vfd) → Owns s.tables f.real_fd vfd → real_fd_of (some vfd) ≡ some f.real_fd
    owned_real (real x) o = ap some o
    owned_real (file a g) o = ap some o.0
    owned_real (pipe_read p) o = absurd o
    owned_real (pipe_write p) o = absurd o

    not_owned : (vfd : Vfd) → vfd ≡ file arc f → ¬ Owns s.tables f.real_fd vfd
    not_owned vfd same o =
        let o' : Owns s.tables f.real_fd (file arc f) = subst (Owns s.tables f.real_fd) same o in
        omega (
          arith,
          o'.1,
          count_in_two arc fd fd' f f t.fds ne e e',
          count_in-le-strong_count arc vpid t s.tables h,
        )
