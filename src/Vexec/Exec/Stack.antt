-- ===== src/Vexec/Exec/Stack.antt =====
-- The stack of a program and its guard page.
use vproc.Prelude.{ℕ, ◌+◌, ◌-◌, ◌≡◌, ap, ◌∙◌, true, some, arith}
use vproc.Vexec.Exec.{Platform, alloc_elf_stack, free_elf_stack}

module _ {ℓ} {K : Type ℓ} (p : Platform K) where
  -- Freeing a stack that was allocated unmaps exactly the range that was mapped for it: the guard page
  -- below it and the stack.
  pub free-alloc_elf_stack :
      (size base : ℕ) (k k1 k2 k' : K)
      → p.map_guard (p.page + size) k ≡ (some base, k1)
      → p.map_stack (base + p.page) size k1 ≡ (true, k2)
      → let (ptr, allocated) = alloc_elf_stack p size k in
        (ptr ≡ base + p.page)
        × (allocated ≡ k2)
        × (free_elf_stack p ptr size k' ≡ p.unmap base (p.page + size) k')
  unfolding alloc_elf_stack free_elf_stack
  free-alloc_elf_stack size base k k1 k2 k' guard stack =
      let granted : alloc_elf_stack p size k ≡ (base + p.page, k2) = ground (arith, guard, stack) in
      let start : base + p.page - p.page ≡ base = omega arith in
      (
        ap (λ (r : ℕ × K). r.0) granted,
        ap (λ (r : ℕ × K). r.1) granted,
        ap (λ (r : ℕ × K). p.unmap (r.0 - p.page) (p.page + size) k') granted
            ∙ ap (λ x. p.unmap x (p.page + size) k') start,
      )
