-- ===== src/Coroutine/Tests.antt =====
-- The stack layout of src/coroutine.rs at a concrete program.
use vproc.Prelude.{◌≡◌, refl, [], ◌∷◌}
use vproc.Coroutine.{elf_data_size}

-- `argc`, two terminators, three pointers and four words of the auxiliary vector.
elf_data_size_small : elf_data_size (4096 ∷ 4100 ∷ []) (4200 ∷ []) ((6, 4096) ∷ (0, 0) ∷ []) ≡ 80
unfolding elf_data_size
elf_data_size_small = refl
