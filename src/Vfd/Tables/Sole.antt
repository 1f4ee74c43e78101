-- ===== src/Vfd/Tables/Sole.antt =====
-- The count of the references to an `Arc<FileRef>`, and the entries that hold it.
use vproc.Prelude.{
  ℕ, ◌+◌, ◌≤◌, ◌<◌, ◌≡◌, ◌≢◌, refl, [], ◌∷◌, true, false, some, arith, ◌==◌, Bool-cases, inl, inr,
}
use mathlib.Core.Path.{subst}
use vproc.Prelude.Assoc.{Assoc, lookup}
use vproc.Prelude.Assoc.Distinct.{Distinct}
use vproc.Vfd.Table.{Vfd, real, file, pipe_read, pipe_write, FileRef, VfdTable, refers_to_file}
use vproc.Vfd.Tables.{count_in, strong_count}

-- No entry of the map holds the `Arc`.
abbrev Unheld : ℕ → Assoc Vfd → Type 0
Unheld arc fds = (j : ℕ) (vfd : Vfd) → lookup j fds ≡ some vfd → refers_to_file arc vfd ≡ false

-- Each table of the storage holds a descriptor once.
abbrev pub AllDistinct : Assoc VfdTable → Type 0
AllDistinct tables = (v : ℕ) (t : VfdTable) → lookup v tables ≡ some t → Distinct t.fds

-- Only the descriptor `fd` of the process `vpid` can hold the `Arc`.
abbrev pub IsSole : Assoc VfdTable → ℕ → ℕ → ℕ → Type 0
IsSole tables arc vpid fd =
    (v j : ℕ) (t : VfdTable) (vfd : Vfd)
    → lookup v tables ≡ some t
    → lookup j t.fds ≡ some vfd
    → refers_to_file arc vfd ≡ true
    → (v ≡ vpid) × (j ≡ fd)

pub count_in-pos :
    (arc fd : ℕ) (f : FileRef) (fds : Assoc Vfd)
    → lookup fd fds ≡ some (file arc f)
    → 0 < count_in arc fds
unfolding count_in lookup refers_to_file
count_in-pos arc fd f [] h = cc
count_in-pos arc fd f ((k, vfd) ∷ fds) h = ground (arith, count_in-pos arc fd f fds)

-- Two descriptors of one table count as two references.
pub count_in_two :
    (arc fd fd' : ℕ) (f f' : FileRef) (fds : Assoc Vfd)
    → fd ≢ fd'
    → lookup fd fds ≡ some (file arc f)
    → lookup fd' fds ≡ some (file arc f')
    → 1 < count_in arc fds
unfolding count_in lookup refers_to_file
count_in_two arc fd fd' f f' [] ne h h' = cc
count_in_two arc fd fd' f f' ((k, vfd) ∷ fds) ne h h' = ground (
  arith,
  count_in-pos arc fd f fds,
  count_in-pos arc fd' f' fds,
  count_in_two arc fd fd' f f' fds ne,
)

pub count_in-le-strong_count :
    (arc vpid : ℕ) (t : VfdTable) (tables : Assoc VfdTable)
    → lookup vpid tables ≡ some t
    → count_in arc t.fds ≤ strong_count arc tables
unfolding strong_count lookup
count_in-le-strong_count arc vpid t [] h = cc
count_in-le-strong_count arc vpid t ((k, u) ∷ tables) h =
    ground (arith, count_in-le-strong_count arc vpid t tables)

count_none : (arc : ℕ) (fds : Assoc Vfd) → Distinct fds → Unheld arc fds → count_in arc fds ≡ 0
unfolding count_in lookup
count_none arc [] d unheld = refl
count_none arc ((k, vfd) ∷ fds) d unheld =
    let here : refers_to_file arc vfd ≡ false = unheld k vfd (ground arith) in
    let rest = count_none arc fds d.1 (λ j v h. unheld j v (ground (arith, h, d.0))) in
    ground (arith, here, rest)

count_one :
    (arc fd : ℕ) (vfd : Vfd) (fds : Assoc Vfd)
    → Distinct fds
    → lookup fd fds ≡ some vfd
    → refers_to_file arc vfd ≡ true
    → ((j : ℕ) (v : Vfd) → lookup j fds ≡ some v → refers_to_file arc v ≡ true → j ≡ fd)
    → count_in arc fds ≡ 1
unfolding count_in lookup
count_one arc fd vfd [] d h holds only = cc
count_one arc fd vfd ((k, v) ∷ fds) d h holds only = elim (Bool-cases (k == fd)) [
  | inl same ↦
      let rest = count_none arc fds d.1 (λ j w found. elim (Bool-cases (refers_to_file arc w)) [
        | inr plain ↦ plain
        | inl held ↦ absurd (ground (arith, found, d.0, same, only j w, held))
      ]) in
      ground (arith, same, holds, rest)
  | inr other ↦
      let here : refers_to_file arc v ≡ false = elim (Bool-cases (refers_to_file arc v)) [
        | inr plain ↦ plain
        | inl held ↦ absurd (ground (arith, other, only k v, held))
      ] in
      let rest =
        count_one arc fd vfd fds d.1 (ground (arith, other)) holds
          (λ j w found held. only j w (ground (arith, found, d.0)) held) in
      ground (arith, here, rest)
]

strong_none :
    (arc : ℕ) (tables : Assoc VfdTable)
    → Distinct tables
    → AllDistinct tables
    → ((v : ℕ) (t : VfdTable) → lookup v tables ≡ some t → Unheld arc t.fds)
    → strong_count arc tables ≡ 0
unfolding strong_count lookup
strong_none arc [] d each unheld = refl
strong_none arc ((k, t) ∷ tables) d each unheld =
    let here = count_none arc t.fds (each k t (ground arith)) (unheld k t (ground arith)) in
    let rest =
      strong_none arc tables d.1 (λ v u found. each v u (ground (arith, found, d.0)))
        (λ v u found. unheld v u (ground (arith, found, d.0))) in
    omega (arith, here, rest)

-- A sole reference counts as one.
pub sole_count :
    (arc vpid fd : ℕ) (vfd : Vfd) (t : VfdTable) (tables : Assoc VfdTable)
    → Distinct tables
    → AllDistinct tables
    → lookup vpid tables ≡ some t
    → lookup fd t.fds ≡ some vfd
    → refers_to_file arc vfd ≡ true
    → IsSole tables arc vpid fd
    → strong_count arc tables ≡ 1
unfolding strong_count lookup
sole_count arc vpid fd vfd t [] d each there h holds sole = cc
sole_count arc vpid fd vfd t ((k, u) ∷ tables) d each there h holds sole =
    elim (Bool-cases (k == vpid)) [
      | inl same ↦
          let own : u ≡ t = ground (arith, same) in
          let here : count_in arc u.fds ≡ 1 =
            count_one arc fd vfd u.fds (each k u (ground arith)) (rw own h) holds
              (λ j w found held. (sole k j u w (ground arith) found held).1) in
          let rest =
            strong_none arc tables d.1 (λ v x found. each v x (ground (arith, found, d.0)))
              (λ v x found j w e. elim (Bool-cases (refers_to_file arc w)) [
                | inr plain ↦ plain
                | inl held ↦
                    let back : v ≡ vpid = (sole v j x w (ground (arith, found, d.0)) e held).0 in
                    absurd (ground (arith, found, d.0, same, back))
              ]) in
          omega (arith, here, rest)
      | inr other ↦
          let here = count_none arc u.fds (each k u (ground arith)) (λ j w e.
            elim (Bool-cases (refers_to_file arc w)) [
              | inr plain ↦ plain
              | inl held ↦
                  let back : k ≡ vpid = (sole k j u w (ground arith) e held).0 in
                  absurd (ground (arith, other, back))
            ]) in
          let rest =
            sole_count arc vpid fd vfd t tables d.1
              (λ v x found. each v x (ground (arith, found, d.0))) (ground (arith, other)) h holds
              (λ v j x w found e held. sole v j x w (ground (arith, found, d.0)) e held) in
          omega (arith, here, rest)
    ]

held_file :
    (arc : ℕ) (vfd : Vfd) → refers_to_file arc vfd ≡ true → (f : FileRef) × (vfd ≡ file arc f)
unfolding refers_to_file
held_file arc (real r) h = absurd (ground arith)
held_file arc (file a f) h = (f, ground arith)
held_file arc (pipe_read p) h = absurd (ground arith)
held_file arc (pipe_write p) h = absurd (ground arith)

-- Two tables count together.
count_in_tables :
    (arc v v' : ℕ) (t t' : VfdTable) (tables : Assoc VfdTable)
    → v ≢ v'
    → lookup v tables ≡ some t
    → lookup v' tables ≡ some t'
    → count_in arc t.fds + count_in arc t'.fds ≤ strong_count arc tables
unfolding strong_count lookup
count_in_tables arc v v' t t' [] ne h h' = cc
count_in_tables arc v v' t t' ((k, u) ∷ tables) ne h h' = ground (
  arith,
  ne,
  count_in-le-strong_count arc v t tables,
  count_in-le-strong_count arc v' t' tables,
  count_in_tables arc v v' t t' tables ne,
)

-- A reference that counts as one is sole.
pub count-IsSole :
    (arc vpid fd : ℕ) (f : FileRef) (t : VfdTable) (tables : Assoc VfdTable)
    → lookup vpid tables ≡ some t
    → lookup fd t.fds ≡ some (file arc f)
    → strong_count arc tables ≡ 1
    → IsSole tables arc vpid fd
count-IsSole arc vpid fd f t tables there h one v j u w there' h' holds =
    let (g, is_file) = held_file arc w holds in
    let found : lookup j u.fds ≡ some (file arc g) = ground (arith, h', is_file) in
    let some_here = count_in-pos arc fd f t.fds h in
    let some_there = count_in-pos arc j g u.fds found in
    elim (Bool-cases (v == vpid)) [
      | inr other ↦
          let both =
            count_in_tables arc vpid v t u tables (λ e. ground (arith, other, e)) there there' in
          absurd (omega arith)
      | inl same ↦
          let is_own : v ≡ vpid = ground (arith, same) in
          let own : u ≡ t = ground (arith, is_own, there, there') in
          elim (Bool-cases (j == fd)) [
            | inl here ↦ (is_own, ground (arith, here))
            | inr other ↦
                let two =
                  count_in_two arc fd j f g t.fds (λ e. ground (arith, other, e)) h
                    (subst (λ (x : VfdTable). lookup j x.fds ≡ some (file arc g)) own found) in
                let most = count_in-le-strong_count arc vpid t tables there in absurd (omega arith)
          ]
    ]
