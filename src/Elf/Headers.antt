-- ===== src/Elf/Headers.antt =====
-- The ELF header and the program headers in src/elf.rs.
pub mod Accept
pub mod Span
use vproc.Prelude.{
  ℕ, zero, suc, ◌+◌, ◌-◌, ◌*◌, ◌^◌, ◌%◌, min, max, List, [], ◌∷◌, Bool, true, false, Option, none,
  some, length, take, drop, ltb, get_or, retain, ◌==◌, not, if◌then◌else◌, Result, ok, err, ◌>>=◌,
  ◌>>◌, fail_if,
}
use vproc.Elf.Format.{
  ElfError, offset_overflow, too_small, bad_magic, not_64_bit, not_little_endian, not_aarch64,
  not_pie, interp_beyond, panics, Ehdr, Phdr, decode_ehdr, decode_phdr, read_at,
}

abbrev pub pt_load : ℕ
pt_load = 1

abbrev pub pt_interp : ℕ
pt_interp = 3

abbrev pub em_aarch64 : ℕ
em_aarch64 = 183

abbrev pub et_dyn : ℕ
et_dyn = 3

-- `hdr.e_ident[0..4] != ELFMAG`, negated.
unfoldable pub has_magic : List ℕ → Bool
has_magic (a ∷ b ∷ c ∷ d ∷ rest) =
    if a == 0x7f then (if b == 69 then (if c == 76 then d == 70 else false) else false) else false
has_magic other = false

-- The checks of `parse_header` on the header that it has read.
unfoldable pub check_header : Ehdr → Result ElfError Ehdr
check_header hdr =
    fail_if (not (has_magic hdr.e_ident)) bad_magic
    >> (fail_if (not (get_or hdr.e_ident 4 0 == 2)) not_64_bit
        >> (fail_if (not (get_or hdr.e_ident 5 0 == 1)) not_little_endian
            >> (fail_if (not (hdr.e_machine == em_aarch64)) (not_aarch64 hdr.e_machine) >> ok hdr)))

unfoldable pub parse_header : List ℕ → Result ElfError Ehdr
parse_header file =
    fail_if (ltb (length file) 64) too_small >> (read_at 64 decode_ehdr file 0 >>= check_header)

unfoldable pub validate_pie : Ehdr → Result ElfError (Unit {0})
validate_pie hdr = fail_if (not (hdr.e_type == et_dyn)) (not_pie hdr.e_type)

-- The loop of `program_headers` from index `i`, for `count` more.
unfoldable pub phdr_loop : List ℕ → ℕ → ℕ → ℕ → ℕ → Result ElfError (List Phdr)
phdr_loop file base entsize i zero = ok []
phdr_loop file base entsize i (suc count) =
    read_at 56 decode_phdr file ((base + i * entsize) % 2 ^ 64) >>= λ (phdr : Phdr).
    phdr_loop file base entsize (i + 1) count >>= λ (phdrs : List Phdr). ok (phdr ∷ phdrs)

unfoldable pub program_headers : List ℕ → Ehdr → Result ElfError (List Phdr)
unfolding phdr_loop
program_headers file hdr = phdr_loop file hdr.e_phoff hdr.e_phentsize 0 hdr.e_phnum

-- The bytes before the first zero, or all of them.
unfoldable pub until_nul : List ℕ → List ℕ
until_nul [] = []
until_nul (byte ∷ bytes) = let rest = until_nul bytes in if byte == 0 then [] else byte ∷ rest

-- What `interpreter_path` returns at the PT_INTERP segment. The path is given by its bytes, which
-- `String::from_utf8_lossy` keeps where they are UTF-8.
unfoldable pub interp_at : List ℕ → Phdr → Result ElfError (Option (List ℕ))
unfolding until_nul
interp_at file phdr =
    let start = phdr.p_offset in
    let end = (start + phdr.p_filesz) % 2 ^ 64 in
    if ltb (length file) end
    then err interp_beyond
    else (if ltb end start
        then err panics
        else ok (some (until_nul (take (end - start) (drop start file)))))

unfoldable pub interpreter_path : List ℕ → List Phdr → Result ElfError (Option (List ℕ))
unfolding interp_at
interpreter_path file [] = ok none
interpreter_path file (phdr ∷ phdrs) =
    let later = interpreter_path file phdrs in
    if phdr.p_type == pt_interp then interp_at file phdr else later

abbrev pub load_segments : List Phdr → List Phdr
load_segments phdrs = retain (λ (p : Phdr). p.p_type == pt_load) phdrs

-- The minimum of `p_vaddr` and the maximum of `p_vaddr + p_memsz`.
unfoldable pub lowest : Phdr → List Phdr → ℕ
lowest p [] = p.p_vaddr
lowest p (q ∷ loads) = min p.p_vaddr (lowest q loads)

abbrev pub end_of : Phdr → ℕ
end_of p = (p.p_vaddr + p.p_memsz) % 2 ^ 64

unfoldable pub highest : Phdr → List Phdr → ℕ
highest p [] = end_of p
highest p (q ∷ loads) = max (end_of p) (highest q loads)

unfoldable pub load_span : List Phdr → ℕ × ℕ
unfolding lowest highest
load_span phdrs = elim (load_segments phdrs) [
  | [] ↦ (0, 0)
  | p ∷ loads ↦
      let min_vaddr = lowest p loads in (min_vaddr, (highest p loads + 2 ^ 64 - min_vaddr) % 2 ^ 64)
]
