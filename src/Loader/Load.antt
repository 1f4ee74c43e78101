-- ===== src/Loader/Load.antt =====
-- `load_pie` and `build_auxv` of src/loader.rs.
pub mod Accepted
use vproc.Prelude.{
  ℕ, ◌+◌, ◌%◌, ◌^◌, List, [], ◌∷◌, Option, none, some, if◌then◌else◌, Result, ok, err, ◌>>=◌, ◌>>◌,
}
use vproc.Elf.Format.{ElfError, Ehdr, Phdr, Dyn, Rela}
use vproc.Elf.Headers.{
  parse_header, validate_pie, program_headers, load_segments, load_span, interpreter_path,
}
use vproc.Elf.Dynamic.{dynamic_entries, rela_entries_from_dynamic}
use vproc.Loader.{
  page_size, page_align_up, alloc_slot, Memory, LoadError, elf_error, no_load_segments,
  reserve_failed, System, map_segments, apply_relative_relocations,
}

pub record LoadedImage : Type 0 where
  pub base : ℕ
  pub total_size : ℕ
  pub entry : ℕ
  pub phdr_addr : ℕ
  pub phnum : ℕ
  pub phentsize : ℕ
  pub interp_path : Option (List ℕ)

-- An error of the ELF reader.
abbrev pub from_elf {ℓ} : {A : Type ℓ} → Result ElfError A → Result LoadError A
from_elf (ok a) = ok a
from_elf (err e) = err (elf_error e)

-- The relocations of the dynamic table, if there is one.
unfoldable pub relocate : List ℕ → ℕ → List Dyn → Memory → Result LoadError Memory
unfolding apply_relative_relocations
relocate file base [] memory = ok memory
relocate file base (d ∷ dyns) memory =
    from_elf (rela_entries_from_dynamic file (d ∷ dyns)) >>= λ (relas : List Rela).
    ok (apply_relative_relocations base relas memory).1

-- `load_pie` after the reservation: the image and the memory.
unfoldable pub load_at :
    System → List ℕ → Ehdr → List Phdr → ℕ → ℕ → Memory → Result LoadError (LoadedImage × Memory)
unfolding map_segments relocate
load_at sys file hdr phdrs base total_mapped memory =
    map_segments sys file base (load_segments phdrs) memory >>= λ (mapped : Memory).
    from_elf (dynamic_entries file phdrs) >>= λ (dyns : List Dyn).
    relocate file base dyns mapped >>= λ (relocated : Memory).
    from_elf (interpreter_path file phdrs) >>= λ (interp : Option (List ℕ)).
    let image : LoadedImage = record {
      base = base;
      total_size = total_mapped;
      entry = (base + hdr.e_entry) % 2 ^ 64;
      phdr_addr = (base + hdr.e_phoff) % 2 ^ 64;
      phnum = hdr.e_phnum;
      phentsize = hdr.e_phentsize;
      interp_path = interp;
    } in
    ok (image, relocated)

-- `load_pie` on a header and program headers that were read, with `NEXT_BASE` before and after.
unfoldable pub load_parsed :
    System → List ℕ → Ehdr → List Phdr → ℕ → Memory → Result LoadError (LoadedImage × Memory) × ℕ
unfolding alloc_slot load_at
load_parsed sys file hdr phdrs next_base memory =
    let total_mapped = page_align_up (load_span phdrs).1 in
    let (base, next_base') = alloc_slot next_base total_mapped in
    let loaded = load_at sys file hdr phdrs base total_mapped memory in
    elim (load_segments phdrs) [
      | [] ↦ (err no_load_segments, next_base)
      | phdr ∷ loads ↦ (
        (if sys.mmap_ok base total_mapped then loaded else err (reserve_failed base)),
        next_base',
      )
    ]

unfoldable pub load_pie : System → List ℕ → ℕ → Memory → Result LoadError (LoadedImage × Memory) × ℕ
unfolding load_parsed
load_pie sys file next_base memory =
    let parsed : Result ElfError (Ehdr × List Phdr) = parse_header file >>= λ (hdr : Ehdr).
    validate_pie hdr >> (program_headers file hdr >>= λ (phdrs : List Phdr). ok (hdr, phdrs)) in
    elim parsed [
      | err e ↦ (err (elf_error e), next_base)
      | ok (hdr, phdrs) ↦ load_parsed sys file hdr phdrs next_base memory
    ]

-- The auxiliary vector, from what /proc/self/auxv holds for AT_HWCAP and the address of the random
-- bytes.
unfoldable pub build_auxv : LoadedImage → ℕ → Option ℕ → ℕ → List (ℕ × ℕ)
build_auxv image interp_base hwcap random =
    let tail : List (ℕ × ℕ) = (25, random) ∷ (0, 0) ∷ [] in
    let rest : List (ℕ × ℕ) = elim hwcap [ none ↦ tail | some value ↦ (16, value) ∷ tail ] in
    (3, image.phdr_addr)
    ∷ (4, image.phentsize)
    ∷ (5, image.phnum)
    ∷ (6, page_size)
    ∷ (9, image.entry)
    ∷ (7, interp_base)
    ∷ rest
