-- ===== src/Elf/Headers/Accept.antt =====
-- What `parse_header` accepts, and what is read of the program headers.
use vproc.Prelude.{
  ℕ, ◌+◌, ◌*◌, ◌%◌, ◌^◌, ◌≤◌, ◌<◌, ◌≡◌, refl, sym, ap, ◌∙◌, ◌↔◌, Bool-cases, inl, inr, List, [],
  ◌∷◌, ◌++◌, true, false, arith, length, take, length-append, get_or, ltb, ok, err,
}
use mathlib.Core.Path.{subst}
use vproc.Elf.Format.{too_small, Ehdr, Phdr, decode_ehdr, decode_phdr, read_at}
use vproc.Elf.Format.Encode.{
  encode_phdr, length-encode_phdr, PhdrFits, decode-encode_phdr, encode_all, All, read_at-head,
  encode_all-tail,
}
use vproc.Elf.Headers.{
  has_magic, check_header, parse_header, phdr_loop, program_headers, em_aarch64,
}

-- What the checks of `parse_header` ask of a header.
pub record IsSupported (h : Ehdr) : Type 0 where
  pub magic : has_magic h.e_ident ≡ true
  pub class_64 : get_or h.e_ident 4 0 ≡ 2
  pub little_endian : get_or h.e_ident 5 0 ≡ 1
  pub aarch64 : h.e_machine ≡ em_aarch64

check_header-ok : (h : Ehdr) → IsSupported h → check_header h ≡ ok h
unfolding check_header
check_header-ok h s = rw (s.magic, s.class_64, s.little_endian, s.aarch64) refl

check_header_sound : (h h' : Ehdr) → check_header h ≡ ok h' → (h' ≡ h) × IsSupported h
unfolding check_header
check_header_sound h h' e = (
  ground arith,
  record {
    magic = ground arith;
    class_64 = ground arith;
    little_endian = ground arith;
    aarch64 = ground arith;
  },
)

read_front :
    (file : List ℕ)
    → 64 ≤ length file
    → read_at 64 decode_ehdr file 0 ≡ ok (decode_ehdr (take 64 file))
unfolding read_at
read_front file h = let enough : ltb (length file) 64 ≡ false = ground arith in rw enough refl

parse_header-read :
    (file : List ℕ)
    → 64 ≤ length file
    → parse_header file ≡ check_header (decode_ehdr (take 64 file))
unfolding parse_header
parse_header-read file h =
    let enough : ltb (length file) 64 ≡ false = ground arith in rw (enough, read_front file h) refl

parse_header-err : (file : List ℕ) → length file < 64 → parse_header file ≡ err too_small
unfolding parse_header
parse_header-err file h = let short : ltb (length file) 64 ≡ true = ground arith in rw short refl

-- `parse_header` accepts a file exactly if it has at least 64 bytes and the header in the first 64
-- has the magic number, class 64, little-endian order and machine aarch64; it then returns
-- that header.
pub parse_header_iff :
    (file : List ℕ) (h : Ehdr)
    → (parse_header file ≡ ok h)
      ↔ ((64 ≤ length file) × (h ≡ decode_ehdr (take 64 file)) × IsSupported h)
parse_header_iff file h = (sound, complete)
  where
    sound :
        parse_header file ≡ ok h
        → (64 ≤ length file) × (h ≡ decode_ehdr (take 64 file)) × IsSupported h
    sound e = elim (Bool-cases (ltb (length file) 64)) [
      | inl short ↦
          let few : length file < 64 = ground arith in
          let clash = sym (parse_header-err file few) ∙ e in absurd (ground arith)
      | inr long ↦
          let enough : 64 ≤ length file = ground arith in
          let checked = sym (parse_header-read file enough) ∙ e in
          let (same, s) = check_header_sound (decode_ehdr (take 64 file)) h checked in
          (enough, same, subst IsSupported (sym same) s)
    ]

    complete :
        (64 ≤ length file) × (h ≡ decode_ehdr (take 64 file)) × IsSupported h
        → parse_header file ≡ ok h
    complete (enough, same, s) =
        parse_header-read file enough
        ∙ check_header-ok (decode_ehdr (take 64 file)) (subst IsSupported same s)
        ∙ ap ok (sym same)

phdr_loop_lem :
    (phdrs : List Phdr) (before after : List ℕ) (base i : ℕ)
    → base + i * 56 ≡ length before
    → length before + 56 * length phdrs < 2 ^ 64
    → All PhdrFits phdrs
    → phdr_loop (before ++ (encode_all encode_phdr phdrs ++ after)) base 56 i (length phdrs)
      ≡ ok phdrs
unfolding phdr_loop
phdr_loop_lem [] before after base i at_start room fits = refl
phdr_loop_lem (p ∷ phdrs) before after base i at_start room (fit, fits) =
    let size = length-encode_phdr p in
    let offset : (base + i * 56) % 2 ^ 64 ≡ length before = omega arith in
    let head =
      read_at-head 56 decode_phdr encode_phdr before after p phdrs ((base + i * 56) % 2 ^ 64) offset
        size (omega arith) (decode-encode_phdr p fit) in
    let tail =
      phdr_loop_lem phdrs (before ++ encode_phdr p) after base (i + 1)
        (omega (arith, length-append before (encode_phdr p)))
        (omega (arith, length-append before (encode_phdr p))) fits in
    let rest =
      ap (λ (file : List ℕ). phdr_loop file base 56 (i + 1) (length phdrs))
        (encode_all-tail 56 decode_phdr encode_phdr before after p phdrs)
      ∙ tail in
    rw (head, rest) refl

-- Program headers that a file holds one after the other, at the place, in the number and of the
-- size that its header names, are what `program_headers` returns, in order.
pub program_headers_round_trip :
    (hdr : Ehdr) (phdrs : List Phdr) (before after : List ℕ)
    → hdr.e_phoff ≡ length before
    → hdr.e_phentsize ≡ 56
    → hdr.e_phnum ≡ length phdrs
    → length before + 56 * length phdrs < 2 ^ 64
    → All PhdrFits phdrs
    → program_headers (before ++ (encode_all encode_phdr phdrs ++ after)) hdr ≡ ok phdrs
unfolding program_headers
program_headers_round_trip hdr phdrs before after at_start size number room fits =
    rw (at_start, size, number)
      (phdr_loop_lem phdrs before after (length before) 0 (omega arith) room fits)
