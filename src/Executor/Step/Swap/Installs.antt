-- ===== src/Executor/Step/Swap/Installs.antt =====
-- What descriptors 0, 1 and 2 are after they are installed.
use vproc.Prelude.{
  ℕ, ◌≡◌, sym, ap, ◌∙◌, false, Option, some, arith, if◌then◌else◌, ◌+◌, Bool-cases, Option-cases,
  inl, inr,
}
use vproc.Prelude.Int.{ℤ, pos, ◌==ℤ◌, ==ℤ_iff, is_negative}
use vproc.Executor.Step.Swap.{raw_dup3, install_one, install_fds}

-- `dup3` as documented: where it succeeds, the new descriptor refers to the open file of the old one,
-- and no other descriptor changes.
abbrev pub IsDup3 {ℓ} : {K : Type ℓ} → (ℤ → ℤ → K → ℤ × K) → (ℤ → K → Option ℕ) → Type ℓ
IsDup3 {K = K} dup3 open_file =
    (old_fd new_fd : ℤ) (k : K)
    → is_negative (dup3 old_fd new_fd k).0 ≡ false
    → (other : ℤ)
    → open_file other (dup3 old_fd new_fd k).1
      ≡ (if new_fd ==ℤ other then open_file old_fd k else open_file other k)

module _ {ℓ} {K : Type ℓ} (dup3 : ℤ → ℤ → K → ℤ × K) (open_file : ℤ → K → Option ℕ)
    (law : IsDup3 dup3 open_file) where
  install_one_reads :
      (fd to : ℤ) (k k' : K)
      → is_negative fd ≡ false
      → install_one dup3 fd to k ≡ some k'
      → (other : ℤ)
      → open_file other k' ≡ (if to ==ℤ other then open_file fd k else open_file other k)
  unfolding install_one raw_dup3
  install_one_reads fd to k k' h e other = elim (Bool-cases (fd ==ℤ to)) [
    | inl same ↦ ground (arith, (==ℤ_iff fd to).0 same)
    | inr moved ↦
        let fine : is_negative (dup3 fd to k).0 ≡ false = ground arith in
        let now : (dup3 fd to k).1 ≡ k' = ground arith in
        ap (open_file other) (sym now) ∙ law fd to k fine other
  ]

  -- Where installing three real descriptors succeeds, descriptor 0 refers to the open file of the first;
  -- 1 to that of the second, or of the first where the second is 0 itself, which has been replaced
  -- by then; 2 likewise; and no other descriptor changes.
  pub install_fds_lem :
      (fd0 fd1 fd2 : ℤ) (k k' : K)
      → is_negative fd0 ≡ false
      → is_negative fd1 ≡ false
      → is_negative fd2 ≡ false
      → install_fds dup3 (fd0, fd1, fd2) k ≡ some k'
      → let second = (if fd1 ==ℤ pos 0 then fd0 else fd1) in
        let third = (if fd2 ==ℤ pos 0 then fd0 else (if fd2 ==ℤ pos 1 then second else fd2)) in
        (open_file (pos 0) k' ≡ open_file fd0 k)
        × (open_file (pos 1) k' ≡ open_file second k)
        × (open_file (pos 2) k' ≡ open_file third k)
        × ((n : ℕ) → open_file (pos (3 + n)) k' ≡ open_file (pos (3 + n)) k)
  unfolding install_fds
  install_fds_lem fd0 fd1 fd2 k k' h0 h1 h2 e =
      elim (Option-cases (install_one dup3 fd0 (pos 0) k)) [
        | inl failed ↦ absurd (ground arith)
        | inr (k0, first) ↦ elim (Option-cases (install_one dup3 fd1 (pos 1) k0)) [
          | inl failed ↦ absurd (ground arith)
          | inr (k1, next) ↦
              let third : install_one dup3 fd2 (pos 2) k1 ≡ some k' = ground arith in
              let a = install_one_reads fd0 (pos 0) k k0 h0 first in
              let b = install_one_reads fd1 (pos 1) k0 k1 h1 next in
              let c = install_one_reads fd2 (pos 2) k1 k' h2 third in
              (
                c (pos 0) ∙ b (pos 0) ∙ a (pos 0),
                ground (arith, c (pos 1), b (pos 1), a fd1, ==ℤ_iff fd1 (pos 0)),
                ground (
                  arith,
                  c (pos 2),
                  b fd2,
                  a fd2,
                  a fd1,
                  ==ℤ_iff fd1 (pos 0),
                  ==ℤ_iff fd2 (pos 0),
                  ==ℤ_iff fd2 (pos 1),
                ),
                λ n. ground (arith, c (pos (3 + n)), b (pos (3 + n)), a (pos (3 + n))),
              )
        ]
      ]
