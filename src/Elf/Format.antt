-- ===== src/Elf/Format.antt =====
-- The structures of src/elf.rs and `read_at`, which reads one of them. A signed field is the 64-bit
-- word that stands for it.
pub mod Encode
use vproc.Prelude.{
  ℕ, suc, ◌+◌, ◌*◌, ◌^◌, ◌%◌, List, [], ◌∷◌, Bool, length, take, drop, ltb, leb, if◌then◌else◌,
  Result, ok, err,
}

-- The errors, by the message of the source; `panics` is a slice out of bounds.
pub data ElfError : Type 0 where
  offset_overflow too_small bad_magic not_64_bit not_little_endian : ElfError
  interp_beyond dynamic_beyond panics : ElfError
  exceeds : ℕ → ℕ → ℕ → ElfError
  not_aarch64 not_pie : ℕ → ElfError

pub record Ehdr : Type 0 where
  pub e_ident : List ℕ
  pub e_type : ℕ
  pub e_machine : ℕ
  pub e_version : ℕ
  pub e_entry : ℕ
  pub e_phoff : ℕ
  pub e_shoff : ℕ
  pub e_flags : ℕ
  pub e_ehsize : ℕ
  pub e_phentsize : ℕ
  pub e_phnum : ℕ
  pub e_shentsize : ℕ
  pub e_shnum : ℕ
  pub e_shstrndx : ℕ

pub record Phdr : Type 0 where
  pub p_type : ℕ
  pub p_flags : ℕ
  pub p_offset : ℕ
  pub p_vaddr : ℕ
  pub p_paddr : ℕ
  pub p_filesz : ℕ
  pub p_memsz : ℕ
  pub p_align : ℕ

pub record Dyn : Type 0 where
  pub d_tag : ℕ
  pub d_val : ℕ

pub record Rela : Type 0 where
  pub r_offset : ℕ
  pub r_info : ℕ
  pub r_addend : ℕ

-- The number that bytes in little-endian order stand for.
unfoldable pub le : List ℕ → ℕ
le [] = 0
le (byte ∷ bytes) = byte + 256 * le bytes

-- A field of `width` bytes.
abbrev pub field : ℕ → ℕ → List ℕ → ℕ
field offset width bytes = le (take width (drop offset bytes))

-- `std::ptr::read_unaligned` of the packed structures.
unfoldable pub decode_ehdr : List ℕ → Ehdr
decode_ehdr bytes = record {
  e_ident = take 16 bytes;
  e_type = field 16 2 bytes;
  e_machine = field 18 2 bytes;
  e_version = field 20 4 bytes;
  e_entry = field 24 8 bytes;
  e_phoff = field 32 8 bytes;
  e_shoff = field 40 8 bytes;
  e_flags = field 48 4 bytes;
  e_ehsize = field 52 2 bytes;
  e_phentsize = field 54 2 bytes;
  e_phnum = field 56 2 bytes;
  e_shentsize = field 58 2 bytes;
  e_shnum = field 60 2 bytes;
  e_shstrndx = field 62 2 bytes;
}

unfoldable pub decode_phdr : List ℕ → Phdr
decode_phdr bytes = record {
  p_type = field 0 4 bytes;
  p_flags = field 4 4 bytes;
  p_offset = field 8 8 bytes;
  p_vaddr = field 16 8 bytes;
  p_paddr = field 24 8 bytes;
  p_filesz = field 32 8 bytes;
  p_memsz = field 40 8 bytes;
  p_align = field 48 8 bytes;
}

unfoldable pub decode_dyn : List ℕ → Dyn
decode_dyn bytes = record { d_tag = field 0 8 bytes; d_val = field 8 8 bytes }

unfoldable pub decode_rela : List ℕ → Rela
decode_rela bytes = record {
  r_offset = field 0 8 bytes;
  r_info = field 8 8 bytes;
  r_addend = field 16 8 bytes;
}

-- `read_at::<T>`, for a `T` of `size` bytes.
unfoldable pub read_at {ℓ} : {A : Type ℓ} → ℕ → (List ℕ → A) → List ℕ → ℕ → Result ElfError A
read_at size decode file offset =
    let end = offset + size in
    if leb (2 ^ 64) end
    then err offset_overflow
    else (if ltb (length file) end
        then err (exceeds offset size (length file))
        else ok (decode (take size (drop offset file))))
