-- ===== src/Loader/Tests.antt =====
-- The theorems on src/loader.rs at a small binary.
use vproc.Prelude.{ℕ, ◌≡◌, refl, List, [], ◌∷◌, true, arith}
use vproc.Elf.Format.{Phdr, Rela}
use vproc.Elf.Headers.{load_span, lowest, highest}
use vproc.Elf.Dynamic.{rela_type}
use vproc.Prelude.{replicate, none, ◌++◌}
use vproc.Loader.{Memory, System, prot_from_flags}
use vproc.Loader.Load.{LoadedImage}
use vproc.Loader.Relocate.{IsApart}

abbrev segment : Phdr
segment = record {
  p_type = 1;
  p_flags = 6;
  p_offset = 1;
  p_vaddr = 16;
  p_paddr = 16;
  p_filesz = 2;
  p_memsz = 8;
  p_align = 4096;
}

abbrev high : Phdr
high = record segment { p_vaddr = 65552 }

prot_rw : prot_from_flags 6 ≡ 3
unfolding prot_from_flags
prot_rw = refl

abbrev based : List Phdr
based = record segment { p_vaddr = 0; p_memsz = 24 } ∷ segment ∷ []

load_span-based : load_span based ≡ (0, 24)
unfolding load_span lowest highest
load_span-based = refl

-- A system that grants everything, and a memory full of ones.
abbrev granting : System
granting = record { mmap_ok = λ addr size. true; mprotect_ok = λ addr size prot. true }

abbrev ones : Memory
ones addr = 1

-- Two relative relocations of neighbouring words, and one of another type.
abbrev relas : List Rela
relas =
    record { r_offset = 16; r_info = 0x403; r_addend = 32 }
    ∷ record { r_offset = 16; r_info = 0x401; r_addend = 0 }
    ∷ record { r_offset = 24; r_info = 0x403; r_addend = 40 }
    ∷ []

relas-IsApart : IsApart 131072 relas
unfolding rela_type
relas-IsApart = (
  λ relative i small. (λ other. absurd (ground arith), (λ other. ground arith, tt)),
  (λ relative i small. (λ other. ground arith, tt), (λ relative i small. tt, tt)),
)

-- A header with one program header, of a segment of eight zero bytes at address 0.
abbrev tiny : List ℕ
tiny =
    0x7f
    ∷ 69
    ∷ 76
    ∷ 70
    ∷ 2
    ∷ 1
    ∷ (replicate 10 0
        ++ 3
          ∷ 0
          ∷ 183
          ∷ 0
          ∷ (replicate 12 0
              ++ 64
                ∷ (replicate 21 0
                    ++ 56
                      ∷ 0
                      ∷ 1
                      ∷ (replicate 7 0
                          ++ 1 ∷ 0 ∷ 0 ∷ 0 ∷ 6 ∷ (replicate 35 0 ++ 8 ∷ replicate 15 0)))))

abbrev tiny_image : LoadedImage
tiny_image = record {
  base = 131072;
  total_size = 4096;
  entry = 131072;
  phdr_addr = 131136;
  phnum = 1;
  phentsize = 56;
  interp_path = none;
}
