-- ===== src/Vfd/Table/Alloc.antt =====
-- `alloc_fd`: its loop ends, on a descriptor that is free.
use vproc.Prelude.{
  ℕ, zero, suc, ◌+◌, ◌%◌, ◌^◌, ◌≤◌, ◌<◌, ◌≡◌, ◌≢◌, refl, sym, ap, ◌∙◌, true, none, inl, inr, arith,
  length, Bool-cases, is_some,
}
use vproc.Prelude.Assoc.{
  Assoc, lookup, remove, contains_key, length-remove-lt, lookup-remove_ne, contains_key→none,
}
use vproc.Prelude.Assoc.Distinct.{Distinct}
use vproc.Vfd.Table.{Vfd, VfdTable, next_u32, skip_used, alloc_fd}

-- `next_u32`, `j` times.
abbrev steps_u32 : ℕ → ℕ → ℕ
steps_u32 n j = (n + j) % 2 ^ 32

-- The keys met on the way are distinct, so with more rounds than keys one of them is free. `less`
-- is the map without the keys met so far.
skip_used_free :
    (fuel : ℕ) (fds less : Assoc Vfd) (n : ℕ)
    → n < 2 ^ 32
    → fuel ≤ 2 ^ 32
    → length less < fuel
    → ((j : ℕ) → j < fuel → lookup (steps_u32 n j) fds ≡ lookup (steps_u32 n j) less)
    → lookup (skip_used fuel fds n) fds ≡ none
unfolding skip_used
skip_used_free zero fds less n hn hf hl same = absurd (omega arith)
skip_used_free (suc fuel) fds less n hn hf hl same = elim (Bool-cases (contains_key n fds)) [
  | inl used ↦
      let taken : contains_key n less ≡ true = ap is_some (sym here) ∙ used in
      rw used (
        skip_used_free fuel fds (remove n less) (next_u32 n) (omega arith) (omega arith)
          (omega (arith, length-remove-lt n less taken)) later)
  | inr free ↦ rw free (contains_key→none n fds free)
]
  where
    here : lookup n fds ≡ lookup n less
    here = let start : steps_u32 n 0 ≡ n = omega arith in rw start at (same 0 (omega arith))

    later :
        (j : ℕ)
        → j < fuel
        → lookup (steps_u32 (next_u32 n) j) fds ≡ lookup (steps_u32 (next_u32 n) j) (remove n less)
    later j h =
        let on : steps_u32 (next_u32 n) j ≡ steps_u32 n (suc j) = omega arith in
        let apart : n ≢ steps_u32 n (suc j) = omega arith in
        rw on
          (same (suc j) (omega arith) ∙ sym (lookup-remove_ne n (steps_u32 n (suc j)) less apart))

-- The next descriptor that a table hands out is free.
abbrev pub IsFresh : VfdTable → Type 0
IsFresh t = lookup t.next_fd t.fds ≡ none

pub record IsValid (t : VfdTable) : Type 0 where
  pub fresh : IsFresh t
  pub next_in : t.next_fd < 2 ^ 32
  pub distinct : Distinct t.fds

-- Not all of the 2 ^ 32 descriptors are about to be in use.
abbrev pub HasRoom : VfdTable → Type 0
HasRoom t = length t.fds + 4 < 2 ^ 32

skip_used-lt : (fuel : ℕ) (fds : Assoc Vfd) (n : ℕ) → n < 2 ^ 32 → skip_used fuel fds n < 2 ^ 32
unfolding skip_used
skip_used-lt zero fds n h = h
skip_used-lt (suc fuel) fds n h = ground (arith, skip_used-lt fuel fds (next_u32 n))

-- Whatever the table was, the descriptor after an allocation is free in it.
pub alloc_fd-IsFresh : (t : VfdTable) → length t.fds < 2 ^ 32 → IsFresh (alloc_fd t).1
unfolding alloc_fd
alloc_fd-IsFresh t h =
    skip_used_free (length t.fds + 1) t.fds t.fds (next_u32 t.next_fd) (omega arith) (omega arith)
      (omega arith) (λ j hj. refl)

skip_used_steps :
    (fuel : ℕ) (fds : Assoc Vfd) (n : ℕ)
    → n < 2 ^ 32
    → (j : ℕ) × (j ≤ fuel) × (skip_used fuel fds n ≡ steps_u32 n j)
unfolding skip_used
skip_used_steps zero fds n h = (0, omega arith, omega arith)
skip_used_steps (suc fuel) fds n h = elim (Bool-cases (contains_key n fds)) [
  | inl used ↦
      let (j, le, e) = skip_used_steps fuel fds (next_u32 n) (omega arith) in
      (suc j, omega arith, rw used (e ∙ omega arith))
  | inr free ↦ (0, omega arith, rw free (omega arith))
]

-- The loop does not come round to the descriptor just handed out.
pub next_fd-alloc_fd-ne :
    (t : VfdTable) → t.next_fd < 2 ^ 32 → HasRoom t → (alloc_fd t).1.next_fd ≢ t.next_fd
unfolding alloc_fd
next_fd-alloc_fd-ne t h room same =
    let (j, le, e) = skip_used_steps (length t.fds + 1) t.fds (next_u32 t.next_fd) (omega arith) in
    absurd (omega arith)

pub next_fd-alloc_fd-lt : (t : VfdTable) → (alloc_fd t).1.next_fd < 2 ^ 32
unfolding alloc_fd
next_fd-alloc_fd-lt t = skip_used-lt (length t.fds + 1) t.fds (next_u32 t.next_fd) (omega arith)

-- `alloc_fd` hands out `next_fd` and changes no descriptor.
pub alloc_fd_lem : (t : VfdTable) → ((alloc_fd t).0 ≡ t.next_fd) × ((alloc_fd t).1.fds ≡ t.fds)
unfolding alloc_fd
alloc_fd_lem t = (refl, refl)

-- `alloc_fd` keeps the invariant while room is left.
pub alloc_fd-IsValid : (t : VfdTable) → IsValid t → HasRoom t → IsValid (alloc_fd t).1
unfolding alloc_fd
alloc_fd-IsValid t v room = record {
  fresh = alloc_fd-IsFresh t (omega arith);
  next_in = next_fd-alloc_fd-lt t;
  distinct = v.distinct;
}
