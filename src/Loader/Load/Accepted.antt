-- ===== src/Loader/Load/Accepted.antt =====
-- What `load_pie` accepts, and the image that it returns.
use vproc.Prelude.{ℕ, ◌+◌, ◌^◌, ◌≤◌, ◌≡◌, List, ◌⊎◌, ok}
use vproc.Elf.Format.{Phdr, Dyn}
use vproc.Elf.Headers.{load_segments}
use vproc.Elf.Dynamic.{dynamic_entries}
use vproc.Loader.{Memory, System, map_segments}
use vproc.Loader.Load.{relocate}

-- The memory after the load: the PT_LOAD segments of the file are mapped at the base, and then the
-- relocations of its dynamic table are applied.
pub record IsLoadedAt (sys : System) (file : List ℕ) (phdrs : List Phdr) (base : ℕ)
    (memory memory' : Memory) : Type 0 where
  pub mapped : Memory
  pub dyns : List Dyn
  pub is_mapped : map_segments sys file base (load_segments phdrs) memory ≡ ok mapped
  pub has_dyns : dynamic_entries file phdrs ≡ ok dyns
  pub is_relocated : relocate file base dyns mapped ≡ ok memory'

-- `NEXT_BASE` after a slot: at least a page past its end, unless the slot comes within a unit of alignment
-- and a page of the end of the address space.
abbrev pub Past : ℕ → ℕ → ℕ → Type 0
Past base total next_base' =
    (base + total + 4096 ≤ next_base') ⊎ (2 ^ 64 ≤ base + total + 65536 + 4096)
