-- ===== src/Elf/Format/Encode.antt =====
-- The bytes of the structures, and what is read from them.
use vproc.Prelude.{
  ℕ, zero, suc, ◌+◌, ◌/◌, ◌%◌, ◌^◌, ◌<◌, ◌≡◌, refl, sym, ap, ◌∙◌, List, [], ◌∷◌, ◌++◌, arith,
  length, length-append, take-append_self, drop-append_self, ok,
}
use mathlib.Core.List.{append_assoc}
use vproc.Elf.Format.{Ehdr, Phdr, Dyn, Rela, le, decode_phdr, decode_dyn, decode_rela, read_at}

-- The `width` bytes of a number in little-endian order.
abbrev pub to_le : ℕ → ℕ → List ℕ
to_le zero n = []
to_le (suc width) n = n % 256 ∷ to_le width (n / 256)

pub le-to_le : (width n : ℕ) → n < 256 ^ width → le (to_le width n) ≡ n
unfolding le
le-to_le zero n h = omega (arith, h)
le-to_le (suc width) n h = omega (arith, le-to_le width (n / 256) (omega arith))

unfoldable pub encode_ehdr : Ehdr → List ℕ
encode_ehdr h =
    h.e_ident
    ++ (to_le 2 h.e_type
        ++ (to_le 2 h.e_machine
            ++ (to_le 4 h.e_version
                ++ (to_le 8 h.e_entry
                    ++ (to_le 8 h.e_phoff
                        ++ (to_le 8 h.e_shoff
                            ++ (to_le 4 h.e_flags
                                ++ (to_le 2 h.e_ehsize
                                    ++ (to_le 2 h.e_phentsize
                                        ++ (to_le 2 h.e_phnum
                                            ++ (to_le 2 h.e_shentsize
                                                ++ (to_le 2 h.e_shnum
                                                    ++ to_le 2 h.e_shstrndx))))))))))))

-- The fields have the widths of the structure.
pub record EhdrFits (h : Ehdr) : Type 0 where
  pub ident_16 : length h.e_ident ≡ 16
  pub type_in : h.e_type < 2 ^ 16
  pub machine_in : h.e_machine < 2 ^ 16
  pub version_in : h.e_version < 2 ^ 32
  pub entry_in : h.e_entry < 2 ^ 64
  pub phoff_in : h.e_phoff < 2 ^ 64
  pub shoff_in : h.e_shoff < 2 ^ 64
  pub flags_in : h.e_flags < 2 ^ 32
  pub ehsize_in : h.e_ehsize < 2 ^ 16
  pub phentsize_in : h.e_phentsize < 2 ^ 16
  pub phnum_in : h.e_phnum < 2 ^ 16
  pub shentsize_in : h.e_shentsize < 2 ^ 16
  pub shnum_in : h.e_shnum < 2 ^ 16
  pub shstrndx_in : h.e_shstrndx < 2 ^ 16

unfoldable pub encode_phdr : Phdr → List ℕ
encode_phdr p =
    to_le 4 p.p_type
    ++ (to_le 4 p.p_flags
        ++ (to_le 8 p.p_offset
            ++ (to_le 8 p.p_vaddr
                ++ (to_le 8 p.p_paddr
                    ++ (to_le 8 p.p_filesz ++ (to_le 8 p.p_memsz ++ to_le 8 p.p_align))))))

pub record PhdrFits (p : Phdr) : Type 0 where
  pub type_in : p.p_type < 2 ^ 32
  pub flags_in : p.p_flags < 2 ^ 32
  pub offset_in : p.p_offset < 2 ^ 64
  pub vaddr_in : p.p_vaddr < 2 ^ 64
  pub paddr_in : p.p_paddr < 2 ^ 64
  pub filesz_in : p.p_filesz < 2 ^ 64
  pub memsz_in : p.p_memsz < 2 ^ 64
  pub align_in : p.p_align < 2 ^ 64

pub length-encode_phdr : (a : Phdr) → length (encode_phdr a) ≡ 56
unfolding encode_phdr
length-encode_phdr a = refl

pub decode-encode_phdr : (p : Phdr) → PhdrFits p → decode_phdr (encode_phdr p) ≡ p
unfolding decode_phdr encode_phdr
decode-encode_phdr p fits = ground (
  arith,
  le-to_le 4 p.p_type (omega (arith, fits.type_in)),
  le-to_le 4 p.p_flags (omega (arith, fits.flags_in)),
  le-to_le 8 p.p_offset (omega (arith, fits.offset_in)),
  le-to_le 8 p.p_vaddr (omega (arith, fits.vaddr_in)),
  le-to_le 8 p.p_paddr (omega (arith, fits.paddr_in)),
  le-to_le 8 p.p_filesz (omega (arith, fits.filesz_in)),
  le-to_le 8 p.p_memsz (omega (arith, fits.memsz_in)),
  le-to_le 8 p.p_align (omega (arith, fits.align_in)),
)

unfoldable pub encode_rela : Rela → List ℕ
encode_rela r = to_le 8 r.r_offset ++ (to_le 8 r.r_info ++ to_le 8 r.r_addend)

pub record RelaFits (r : Rela) : Type 0 where
  pub offset_in : r.r_offset < 2 ^ 64
  pub info_in : r.r_info < 2 ^ 64
  pub addend_in : r.r_addend < 2 ^ 64

pub length-encode_rela : (a : Rela) → length (encode_rela a) ≡ 24
unfolding encode_rela
length-encode_rela a = refl

pub decode-encode_rela : (r : Rela) → RelaFits r → decode_rela (encode_rela r) ≡ r
unfolding decode_rela encode_rela
decode-encode_rela r fits = ground (
  arith,
  le-to_le 8 r.r_offset (omega (arith, fits.offset_in)),
  le-to_le 8 r.r_info (omega (arith, fits.info_in)),
  le-to_le 8 r.r_addend (omega (arith, fits.addend_in)),
)

unfoldable pub encode_dyn : Dyn → List ℕ
encode_dyn d = to_le 8 d.d_tag ++ to_le 8 d.d_val

pub record DynFits (d : Dyn) : Type 0 where
  pub tag_in : d.d_tag < 2 ^ 64
  pub val_in : d.d_val < 2 ^ 64

pub length-encode_dyn : (a : Dyn) → length (encode_dyn a) ≡ 16
unfolding encode_dyn
length-encode_dyn a = refl

pub decode-encode_dyn : (d : Dyn) → DynFits d → decode_dyn (encode_dyn d) ≡ d
unfolding decode_dyn encode_dyn
decode-encode_dyn d fits = ground (
  arith,
  le-to_le 8 d.d_tag (omega (arith, fits.tag_in)),
  le-to_le 8 d.d_val (omega (arith, fits.val_in)),
)

-- A structure that stands at an offset of the data is what `read_at` reads there.
pub read_at_lem {ℓ} :
    {A : Type ℓ} (size : ℕ) (decode : List ℕ → A) (before bytes after : List ℕ) (a : A)
    → length bytes ≡ size
    → length before + size < 2 ^ 64
    → decode bytes ≡ a
    → read_at size decode (before ++ (bytes ++ after)) (length before) ≡ ok a
unfolding read_at
read_at_lem size decode before bytes after a h room e =
    let total = length-append before (bytes ++ after) in
    ground (
      arith,
      total,
      length-append bytes after,
      drop-append_self (length before) before (bytes ++ after) refl,
      take-append_self size bytes after h,
    )

-- The structures of a list, one after the other.
abbrev pub encode_all {ℓ} : {A : Type ℓ} → (A → List ℕ) → List A → List ℕ
encode_all encode [] = []
encode_all encode (a ∷ list) = encode a ++ encode_all encode list

abbrev pub All {ℓ} : {A : Type ℓ} → (A → Type 0) → List A → Type 0
All fits [] = Unit {0}
All fits (a ∷ list) = fits a × All fits list

-- A list of structures in a file: the first is read, and the others stand after it.
module _ {ℓ} {A : Type ℓ} (size : ℕ) (decode : List ℕ → A) (encode : A → List ℕ) where
  pub read_at-head :
      (before after : List ℕ) (a : A) (list : List A) (at_byte : ℕ)
      → at_byte ≡ length before
      → length (encode a) ≡ size
      → length before + size < 2 ^ 64
      → decode (encode a) ≡ a
      → read_at size decode (before ++ (encode_all encode (a ∷ list) ++ after)) at_byte ≡ ok a
  read_at-head before after a list at_byte here h room e =
      rw (here, append_assoc (encode a) (encode_all encode list) after)
        (read_at_lem size decode before (encode a) (encode_all encode list ++ after) a h room e)

  pub encode_all-tail :
      (before after : List ℕ) (a : A) (list : List A)
      → before ++ (encode_all encode (a ∷ list) ++ after)
        ≡ (before ++ encode a) ++ (encode_all encode list ++ after)
  encode_all-tail before after a list =
      ap (λ tail. before ++ tail) (append_assoc (encode a) (encode_all encode list) after)
      ∙ sym (append_assoc before (encode a) (encode_all encode list ++ after))
