-- ===== src/Loader/Image.antt =====
-- The memory of a loaded binary: the bytes of its segments, and its relocations.
use vproc.Prelude.{
  ℕ, ◌+◌, ◌-◌, ◌%◌, ◌^◌, ◌≤◌, ◌<◌, ◌≡◌, inl, inr, refl, sym, ap, ◌∙◌, List, true, false, Option,
  some, arith, length, take, drop, get_elem?, leb, ltb, ◌==◌, length-take, length-drop,
  get_elem?-drop, get_elem?-take, get_elem?-some, get_elem?-none, Bool-cases, if◌then◌else◌, ok,
}
use vproc.Elf.Format.{Phdr}
use vproc.Loader.{
  page_size, Mapping, mapping_of, Memory, in_range, zero_range, copy_bytes, System, copy_segment,
  map_load_segment,
}
use vproc.Loader.Pages.{mapping_of_lem}

-- The byte that a segment has at a distance from its start: of the file, then zero.
abbrev pub segment_byte : List ℕ → Phdr → ℕ → Option ℕ
segment_byte file phdr i =
    if ltb i phdr.p_filesz then get_elem? file (phdr.p_offset + i) else some 0

copy_bytes_reads :
    (target i : ℕ) (bytes : List ℕ) (memory : Memory) (byte : ℕ)
    → get_elem? bytes i ≡ some byte
    → copy_bytes target bytes memory (target + i) ≡ byte
unfolding copy_bytes
copy_bytes_reads target i bytes memory byte h =
    let above : leb target (target + i) ≡ true = ground arith in
    let distance : target + i - target ≡ i = omega arith in rw (above, distance, h) refl

copy_bytes_others :
    (target addr : ℕ) (bytes : List ℕ) (memory : Memory)
    → in_range target (length bytes) addr ≡ false
    → copy_bytes target bytes memory addr ≡ memory addr
unfolding copy_bytes
copy_bytes_others target addr bytes memory h = ground (arith, get_elem?-none (addr - target) bytes)

-- The file part of a segment is copied, and nothing else changes.
copy_segment_lem :
    (file : List ℕ) (phdr : Phdr) (target : ℕ) (memory : Memory)
    → phdr.p_offset + phdr.p_filesz ≤ length file
    → length file < 2 ^ 64
    → (copied : Memory) × (copy_segment file phdr target memory ≡ ok copied)
      × ((i : ℕ)
          → i < phdr.p_filesz
          → some (copied (target + i)) ≡ get_elem? file (phdr.p_offset + i))
      × ((addr : ℕ) → in_range target phdr.p_filesz addr ≡ false → copied addr ≡ memory addr)
unfolding copy_segment
copy_segment_lem file phdr target memory inside small = elim (Bool-cases (phdr.p_filesz == 0)) [
  | inl empty ↦ (memory, rw empty refl, λ i lt. absurd (ground arith), λ addr h. refl)
  | inr full ↦ (copy_bytes target part memory, rw (full, inside_file, in_order) refl, reads, others)
]
  where
    end : ℕ
    end = (phdr.p_offset + phdr.p_filesz) % 2 ^ 64

    part : List ℕ
    part = take (end - phdr.p_offset) (drop phdr.p_offset file)

    inside_file : ltb (length file) end ≡ false
    inside_file = ground arith

    in_order : ltb end phdr.p_offset ≡ false
    in_order = ground arith

    size : end - phdr.p_offset ≡ phdr.p_filesz
    size = omega arith

    length-part : length part ≡ phdr.p_filesz
    length-part = omega (
      arith,
      size,
      length-take (end - phdr.p_offset) (drop phdr.p_offset file),
      length-drop phdr.p_offset file,
    )

    reads :
        (i : ℕ)
        → i < phdr.p_filesz
        → some (copy_bytes target part memory (target + i)) ≡ get_elem? file (phdr.p_offset + i)
    reads i lt =
        let (byte, e) = get_elem?-some i part (omega (arith, length-part)) in
        let kept : ltb i (end - phdr.p_offset) ≡ true = ground (arith, size) in
        ap some (copy_bytes_reads target i part memory byte e)
        ∙ sym e
        ∙ get_elem?-take (end - phdr.p_offset) i (drop phdr.p_offset file)
        ∙ rw kept (get_elem?-drop phdr.p_offset i file)

    others :
        (addr : ℕ)
        → in_range target phdr.p_filesz addr ≡ false
        → copy_bytes target part memory addr ≡ memory addr
    others addr h = copy_bytes_others target addr part memory (rw length-part h)

-- The system maps a range and protects it.
abbrev pub IsGranted : System → Mapping → Type 0
IsGranted sys m =
    (sys.mmap_ok m.map_addr m.map_size ≡ true)
    × (sys.mprotect_ok m.map_addr m.map_size m.prot ≡ true)

-- Where the system grants the mapping, `map_load_segment` succeeds for a segment whose file part is
-- inside the file and no larger than its memory, and then the memory of the segment holds its
-- part of the file followed by zeros. Outside the mapping, no byte changes.
pub map_load_segment_lem :
    (sys : System) (file : List ℕ) (base : ℕ) (phdr : Phdr) (memory : Memory)
    → base % page_size ≡ 0
    → base + phdr.p_vaddr + phdr.p_memsz + page_size < 2 ^ 64
    → phdr.p_filesz ≤ phdr.p_memsz
    → phdr.p_offset + phdr.p_filesz ≤ length file
    → length file < 2 ^ 64
    → IsGranted sys (mapping_of base phdr)
    → (memory' : Memory) × (map_load_segment sys file base phdr memory ≡ ok memory')
      × ((i : ℕ)
          → i < phdr.p_memsz
          → some (memory' (base + phdr.p_vaddr + i)) ≡ segment_byte file phdr i)
      × ((addr : ℕ)
          → in_range (mapping_of base phdr).map_addr (mapping_of base phdr).map_size addr ≡ false
          → memory' addr ≡ memory addr)
unfolding map_load_segment zero_range
map_load_segment_lem sys file base phdr memory aligned room fits inside small (granted, protected) =
    let (copied, e, reads, others) = copy_segment_lem file phdr target zeroed inside small in
    (
      copied,
      rw (granted, e, protected) refl,
      λ i lt. elim (Bool-cases (ltb i phdr.p_filesz)) [
        | inl of_file ↦
            rw of_file (sym (ap (λ (a : ℕ). some (copied (a + i))) start) ∙ reads i (ground arith))
        | inr past ↦
            rw past
              (ap some (others (base + phdr.p_vaddr + i) (ground (arith, start)) ∙ zeros i lt))
      ],
      λ addr h. others addr (ground (arith, start, shape)) ∙ rw h refl,
    )
  where
    m : Mapping
    m = mapping_of base phdr

    target : ℕ
    target = (m.map_addr + m.page_offset) % 2 ^ 64

    zeroed : Memory
    zeroed = zero_range m.map_addr m.map_size memory

    shape :
        (m.map_addr % page_size ≡ 0)
        × (m.map_size % page_size ≡ 0)
        × (m.map_addr + m.page_offset ≡ base + phdr.p_vaddr)
        × (m.page_offset < page_size)
        × (base + phdr.p_vaddr + phdr.p_memsz ≤ m.map_addr + m.map_size)
        × (m.map_addr + m.map_size < base + phdr.p_vaddr + phdr.p_memsz + page_size)
    shape = mapping_of_lem base phdr aligned room

    start : target ≡ base + phdr.p_vaddr
    start = omega (arith, shape)

    zeros : (i : ℕ) → i < phdr.p_memsz → zeroed (base + phdr.p_vaddr + i) ≡ 0
    zeros i lt =
        let inside_map : in_range m.map_addr m.map_size (base + phdr.p_vaddr + i) ≡ true =
          ground (arith, shape) in
        rw inside_map refl
