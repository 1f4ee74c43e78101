-- ===== src/Coroutine/Layout.antt =====
-- The stack that `new_elf` prepares for a loaded binary.
use vproc.Prelude.{
  ℕ, ◌+◌, ◌*◌, ◌%◌, ◌≤◌, ◌≡◌, refl, List, [], ◌∷◌, ◌++◌, arith, length, length-append,
}
use vproc.Coroutine.{auxv_words, elf_words, elf_data_size, elf_data_bottom}

length-auxv_words : (auxv : List (ℕ × ℕ)) → length (auxv_words auxv) ≡ 2 * length auxv
unfolding auxv_words
length-auxv_words [] = refl
length-auxv_words ((kind, value) ∷ auxv) = omega (arith, length-auxv_words auxv)

length-elf_words :
    (argc : ℕ) (argv envp : List ℕ) (auxv : List (ℕ × ℕ))
    → length (elf_words argc argv envp auxv) ≡ length argv + length envp + 2 * length auxv + 3
unfolding elf_words
length-elf_words argc argv envp auxv = omega (
  arith,
  length-append argv (0 ∷ (envp ++ 0 ∷ auxv_words auxv)),
  length-append envp (0 ∷ auxv_words auxv),
  length-auxv_words auxv,
)

-- The words that `new_elf` writes fit between the stack pointer and the top of the stack, less than
-- two words are left over, and with a 16-byte aligned stack top the stack pointer is aligned too,
-- wherever the stack holds the data.
pub elf_layout :
    (stack_base stack_size argc : ℕ) (argv envp : List ℕ) (auxv : List (ℕ × ℕ))
    → elf_data_size argv envp auxv ≤ stack_size
    → (stack_base + stack_size) % 16 ≡ 0
    → let sp = elf_data_bottom stack_base stack_size argv envp auxv in
      let bytes = 8 * length (elf_words argc argv envp auxv) in
      (stack_base ≤ sp)
      × (sp + bytes ≤ stack_base + stack_size)
      × (stack_base + stack_size ≤ sp + bytes + 15)
      × (sp % 16 ≡ 0)
unfolding elf_data_bottom elf_data_size
elf_layout stack_base stack_size argc argv envp auxv fits top =
    omega (arith, length-elf_words argc argv envp auxv)
