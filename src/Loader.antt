-- ===== src/Loader.antt =====
-- src/loader.rs: where a PIE binary is placed in memory, and its relocation. Addresses are `usize` of
-- 64 bits, whose sums wrap around as in a release build.
pub mod Pages
pub mod Image
pub mod Relocate
pub mod Load
mod Tests
use vproc.Prelude.{
  ℕ, zero, suc, ◌+◌, ◌-◌, ◌*◌, ◌/◌, ◌%◌, ◌^◌, List, [], ◌∷◌, ◌++◌, Bool, true, false, ◌&&◌, Option,
  none, some, length, take, drop, leb, ltb, get_elem?, not, ◌==◌, if◌then◌else◌, Result, ok, err,
  ◌>>=◌, ◌>>◌, fail_if,
}
use vproc.Elf.Format.{ElfError, Ehdr, Phdr, Dyn, Rela}
use vproc.Elf.Headers.{
  parse_header, validate_pie, program_headers, load_segments, load_span, interpreter_path,
}
use vproc.Elf.Dynamic.{rela_type, dynamic_entries, rela_entries_from_dynamic}

abbrev pub page_size : ℕ
page_size = 4096

abbrev pub slot_align : ℕ
slot_align = 65536

abbrev pub r_aarch64_relative : ℕ
r_aarch64_relative = 0x403

-- `addr & !(PAGE_SIZE - 1)`
abbrev pub page_align_down : ℕ → ℕ
page_align_down addr = addr - addr % page_size

abbrev pub page_align_up : ℕ → ℕ
page_align_up addr = let sum = (addr + (page_size - 1)) % 2 ^ 64 in sum - sum % page_size

-- `NEXT_BASE` at the start.
abbrev pub first_base : ℕ
first_base = 0x2000000000

-- The slot, and `NEXT_BASE` after the `fetch_add`.
unfoldable pub alloc_slot : ℕ → ℕ → ℕ × ℕ
alloc_slot next_base size =
    let sum = (size + (slot_align - 1)) % 2 ^ 64 in
    let aligned_size = sum - sum % slot_align in
    (next_base, (next_base + (aligned_size + page_size) % 2 ^ 64) % 2 ^ 64)

-- `PROT_READ`, `PROT_WRITE` and `PROT_EXEC` are 1, 2 and 4; `PF_X`, `PF_W` and `PF_R` are 1, 2 and 4.
unfoldable pub prot_from_flags : ℕ → ℕ
prot_from_flags flags =
    (if flags / 4 % 2 == 0 then 0 else 1)
    + (if flags / 2 % 2 == 0 then 0 else 2)
    + (if flags % 2 == 0 then 0 else 4)

-- What `map_load_segment` computes for its calls of `mmap` and `mprotect`.
pub record Mapping : Type 0 where
  pub map_addr : ℕ
  pub map_size : ℕ
  pub page_offset : ℕ
  pub prot : ℕ

unfoldable pub mapping_of : ℕ → Phdr → Mapping
unfolding prot_from_flags
mapping_of base phdr =
    let page_start = page_align_down phdr.p_vaddr in
    let page_end = page_align_up ((phdr.p_vaddr + phdr.p_memsz) % 2 ^ 64) in
    record {
      map_addr = (base + page_start) % 2 ^ 64;
      map_size = (page_end + 2 ^ 64 - page_start) % 2 ^ 64;
      page_offset = phdr.p_vaddr - page_start;
      prot = prot_from_flags phdr.p_flags;
    }

-- Bytes by address.
abbrev pub Memory : Type 0
Memory = ℕ → ℕ

abbrev pub in_range : ℕ → ℕ → ℕ → Bool
in_range start size addr = leb start addr && ltb addr (start + size)

-- `MAP_ANONYMOUS` zeroes a range, and `copy_nonoverlapping` puts bytes at an address.
unfoldable pub zero_range : ℕ → ℕ → Memory → Memory
zero_range start size memory = λ addr. if in_range start size addr then 0 else memory addr

unfoldable pub copy_bytes : ℕ → List ℕ → Memory → Memory
copy_bytes start bytes memory = λ addr.
    if leb start addr
    then elim (get_elem? bytes (addr - start)) [ none ↦ memory addr | some byte ↦ byte ]
    else memory addr

-- The errors of `load_pie`; `panics` is a slice out of bounds.
pub data LoadError : Type 0 where
  elf_error : ElfError → LoadError
  no_load_segments beyond_file panics : LoadError
  reserve_failed mmap_failed mprotect_failed : ℕ → LoadError

-- Whether the system grants an `mmap` of a size at an address, and an `mprotect` to given bits.
pub record System : Type 0 where
  pub mmap_ok : ℕ → ℕ → Bool
  pub mprotect_ok : ℕ → ℕ → ℕ → Bool

-- The copy of the file part of a segment to an address.
unfoldable pub copy_segment : List ℕ → Phdr → ℕ → Memory → Result LoadError Memory
unfolding copy_bytes
copy_segment file phdr target memory =
    let end = (phdr.p_offset + phdr.p_filesz) % 2 ^ 64 in
    let copied = copy_bytes target (take (end - phdr.p_offset) (drop phdr.p_offset file)) memory in
    if phdr.p_filesz == 0
    then ok memory
    else (if ltb (length file) end
        then err beyond_file
        else (if ltb end phdr.p_offset then err panics else ok copied))

unfoldable pub map_load_segment : System → List ℕ → ℕ → Phdr → Memory → Result LoadError Memory
unfolding mapping_of zero_range copy_segment
map_load_segment sys file base phdr memory =
    let m = mapping_of base phdr in
    let target = (m.map_addr + m.page_offset) % 2 ^ 64 in
    let zeroed = zero_range m.map_addr m.map_size memory in
    fail_if (not (sys.mmap_ok m.map_addr m.map_size)) (mmap_failed m.map_addr)
    >> (copy_segment file phdr target zeroed >>= λ (copied : Memory).
        fail_if (not (sys.mprotect_ok m.map_addr m.map_size m.prot)) (mprotect_failed m.map_addr)
        >> ok copied)

unfoldable pub map_segments : System → List ℕ → ℕ → List Phdr → Memory → Result LoadError Memory
unfolding map_load_segment
map_segments sys file base [] memory = ok memory
map_segments sys file base (phdr ∷ loads) memory =
    map_load_segment sys file base phdr memory >>= λ (mapped : Memory).
    map_segments sys file base loads mapped

-- The eight bytes of a word, at an address.
abbrev pub word_byte : ℕ → ℕ → ℕ
word_byte value zero = value % 256
word_byte value (suc i) = word_byte (value / 256) i

-- `write_volatile` of a `u64`.
unfoldable pub write_word : ℕ → ℕ → Memory → Memory
write_word target value memory =
    λ addr. if in_range target 8 addr then word_byte value (addr - target) else memory addr

-- The loop of `apply_relative_relocations`: the number of relocations done, and the memory.
unfoldable pub apply_relative_relocations : ℕ → List Rela → Memory → ℕ × Memory
unfolding write_word rela_type
apply_relative_relocations base [] memory = (0, memory)
apply_relative_relocations base (rela ∷ relas) memory =
    let skip = apply_relative_relocations base relas memory in
    let target = (base + rela.r_offset) % 2 ^ 64 in
    let value = (base + rela.r_addend) % 2 ^ 64 in
    let (count, done) = apply_relative_relocations base relas (write_word target value memory) in
    if rela_type rela.r_info == r_aarch64_relative then (count + 1, done) else skip
