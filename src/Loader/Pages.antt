-- ===== src/Loader/Pages.antt =====
-- Pages and slots: where `load_pie` puts a binary and its segments.
use vproc.Prelude.{ℕ, ◌+◌, ◌%◌, ◌^◌, ◌≤◌, ◌<◌, ◌≡◌, refl, List, arith}
use vproc.Elf.Format.{Phdr}
use vproc.Elf.Headers.{load_span}
use vproc.Loader.{page_size, slot_align, page_align_up, alloc_slot, mapping_of}

-- The mapping of a segment that does not wrap around, at a base on a page: it starts and ends on a
-- page, holds the whole segment, which stands at the base plus its address, and has less than a page
-- to spare on either side.
pub mapping_of_lem :
    (base : ℕ) (phdr : Phdr)
    → base % page_size ≡ 0
    → base + phdr.p_vaddr + phdr.p_memsz + page_size < 2 ^ 64
    → let m = mapping_of base phdr in
      (m.map_addr % page_size ≡ 0)
      × (m.map_size % page_size ≡ 0)
      × (m.map_addr + m.page_offset ≡ base + phdr.p_vaddr)
      × (m.page_offset < page_size)
      × (base + phdr.p_vaddr + phdr.p_memsz ≤ m.map_addr + m.map_size)
      × (m.map_addr + m.map_size < base + phdr.p_vaddr + phdr.p_memsz + page_size)
unfolding mapping_of
mapping_of_lem base phdr aligned room = omega arith

-- Slots that are handed out one after the other, of sizes that fit below 2^64, lie apart with at
-- least a page between them, and start on a page if the first does.
pub alloc_slot_apart :
    (next_base size size' : ℕ)
    → next_base + size + slot_align + page_size < 2 ^ 64
    → let (slot, next) = alloc_slot next_base size in
      let (slot', next') = alloc_slot next size' in
      (slot ≡ next_base)
      × (slot + size + page_size ≤ slot')
      × (next_base % page_size ≡ 0 → slot' % page_size ≡ 0)
unfolding alloc_slot
alloc_slot_apart next_base size size' room = (refl, omega arith, λ h. omega arith)

-- Where the lowest PT_LOAD address is 0, the memory that `load_pie` reserves holds the mapping of
-- every segment in the span.
pub reserved_enough :
    (base : ℕ) (phdrs : List Phdr) (phdr : Phdr)
    → base % page_size ≡ 0
    → (load_span phdrs).0 ≡ 0
    → phdr.p_vaddr + phdr.p_memsz ≤ (load_span phdrs).1
    → base + (load_span phdrs).1 + page_size < 2 ^ 64
    → let m = mapping_of base phdr in
      (base ≤ m.map_addr) × (m.map_addr + m.map_size ≤ base + page_align_up (load_span phdrs).1)
unfolding mapping_of
reserved_enough base phdrs phdr aligned zero_based inside room = omega arith

-- Where the lowest PT_LOAD address is a page or more above 0, the memory that `load_pie` reserves ends
-- before the mapping of the segment at the end of the span does.
pub reserved_short :
    (base : ℕ) (phdrs : List Phdr) (phdr : Phdr)
    → base % page_size ≡ 0
    → page_size ≤ (load_span phdrs).0
    → (load_span phdrs).0 ≤ phdr.p_vaddr
    → phdr.p_vaddr + phdr.p_memsz ≡ (load_span phdrs).0 + (load_span phdrs).1
    → base + phdr.p_vaddr + phdr.p_memsz + page_size < 2 ^ 64
    → let m = mapping_of base phdr in
      base + page_align_up (load_span phdrs).1 < m.map_addr + m.map_size
unfolding mapping_of
reserved_short base phdrs phdr aligned above low last room = omega arith
