-- ===== src/Elf/Tests.antt =====
-- The theorems on src/elf.rs at small files.
use vproc.Prelude.{
  ℕ, ◌+◌, ◌≤◌, ◌≡◌, ◌↔◌, refl, List, [], ◌∷◌, ◌++◌, arith, length, take, replicate, ok, err,
}
use vproc.Elf.Format.{too_small, Ehdr, Phdr, Dyn, Rela, le, decode_ehdr, read_at}
use vproc.Elf.Format.Encode.{encode_dyn, encode_all}
use vproc.Elf.Headers.{
  has_magic, check_header, parse_header, load_span, load_segments, lowest, highest,
}
use vproc.Elf.Headers.Accept.{IsSupported, parse_header_iff}
use vproc.Elf.Headers.Span.{Between, load_span_covers}
use vproc.Elf.Dynamic.RoundTrip.{end_entry}

-- A header of an aarch64 PIE, all other fields zero.
abbrev header : List ℕ
header = 0x7f ∷ 69 ∷ 76 ∷ 70 ∷ 2 ∷ 1 ∷ (replicate 10 0 ++ 3 ∷ 0 ∷ 183 ∷ 0 ∷ replicate 44 0)

parse_header_small : parse_header (0x7f ∷ 69 ∷ []) ≡ err too_small
unfolding parse_header
parse_header_small = refl

parse_header_iff_example :
    let h = decode_ehdr (take 64 header) in
    (parse_header header ≡ ok h)
    ↔ ((64 ≤ length header) × (h ≡ decode_ehdr (take 64 header)) × IsSupported h)
parse_header_iff_example = parse_header_iff header (decode_ehdr (take 64 header))

parse_header_run : parse_header header ≡ ok (decode_ehdr (take 64 header))
unfolding parse_header check_header has_magic read_at decode_ehdr le
parse_header_run = refl

abbrev text : Phdr
text = record {
  p_type = 1;
  p_flags = 5;
  p_offset = 0;
  p_vaddr = 0;
  p_paddr = 0;
  p_filesz = 4096;
  p_memsz = 4096;
  p_align = 65536;
}

-- The other segment, with memory past its part of the file.
abbrev bss : Phdr
bss = record text { p_flags = 6; p_offset = 4096; p_vaddr = 69632; p_filesz = 512; p_memsz = 1024 }

abbrev hdr : Ehdr
hdr = record {
  e_ident = [];
  e_type = 3;
  e_machine = 183;
  e_version = 1;
  e_entry = 0;
  e_phoff = 2;
  e_shoff = 0;
  e_flags = 0;
  e_ehsize = 64;
  e_phentsize = 56;
  e_phnum = 2;
  e_shentsize = 0;
  e_shnum = 0;
  e_shstrndx = 0;
}

load_span_run : load_span (text ∷ bss ∷ []) ≡ (0, 70656)
unfolding load_span lowest highest
load_span_run = refl

load_span_covers_example :
    let (low, size) = load_span (text ∷ bss ∷ []) in
    Between low (low + size) (load_segments (text ∷ bss ∷ []))
load_span_covers_example = load_span_covers (text ∷ bss ∷ []) (omega arith, (omega arith, tt))

abbrev rela_table : List Dyn
rela_table = record { d_tag = 7; d_val = 1 } ∷ record { d_tag = 8; d_val = 24 } ∷ []

abbrev relative : Rela
relative = record { r_offset = 69632; r_info = 0x403; r_addend = 16 }

abbrev dynamic : Phdr
dynamic = record text { p_type = 2; p_offset = 1; p_filesz = 48 }

abbrev dynamic_file : List ℕ
dynamic_file = (9 ∷ []) ++ (encode_all encode_dyn (rela_table ++ end_entry ∷ []) ++ [])

length-dynamic_file : length dynamic_file ≡ 49
unfolding encode_dyn
length-dynamic_file = refl
