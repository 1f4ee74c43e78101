-- ===== src/Elf/Dynamic.antt =====
-- The dynamic table and the relocations in src/elf.rs.
pub mod RoundTrip
use vproc.Prelude.{
  ℕ, zero, suc, ◌+◌, ◌-◌, ◌*◌, ◌/◌, ◌^◌, ◌%◌, List, [], ◌∷◌, Bool, true, false, length, ltb, ◌==◌,
  if◌then◌else◌, Result, ok, err, ◌>>=◌, ◌>>◌, fail_if,
}
use vproc.Elf.Format.{ElfError, dynamic_beyond, Phdr, Dyn, Rela, decode_dyn, decode_rela, read_at}

abbrev pub pt_dynamic : ℕ
pt_dynamic = 2

abbrev pub dt_null : ℕ
dt_null = 0

abbrev pub dt_rela : ℕ
dt_rela = 7

abbrev pub dt_relasz : ℕ
dt_relasz = 8

-- The loop of `dynamic_entries` from index `i`, for at most `count` more.
unfoldable pub dyn_loop : List ℕ → ℕ → ℕ → ℕ → Result ElfError (List Dyn)
dyn_loop file start i zero = ok []
dyn_loop file start i (suc count) =
    read_at 16 decode_dyn file ((start + i * 16) % 2 ^ 64) >>= λ (entry : Dyn).
    let rest = dyn_loop file start (i + 1) count in
    if entry.d_tag == dt_null
    then ok []
    else (rest >>= λ (entries : List Dyn). ok (entry ∷ entries))

-- What `dynamic_entries` returns at the PT_DYNAMIC segment.
unfoldable pub dynamic_at : List ℕ → Phdr → Result ElfError (List Dyn)
unfolding dyn_loop
dynamic_at file phdr =
    let start = phdr.p_offset in
    let size = phdr.p_filesz in
    fail_if (ltb (length file) ((start + size) % 2 ^ 64)) dynamic_beyond
    >> dyn_loop file start 0 (size / 16)

unfoldable pub dynamic_entries : List ℕ → List Phdr → Result ElfError (List Dyn)
unfolding dynamic_at
dynamic_entries file [] = ok []
dynamic_entries file (phdr ∷ phdrs) =
    let later = dynamic_entries file phdrs in
    if phdr.p_type == pt_dynamic then dynamic_at file phdr else later

-- The last `d_val` with the tag, or `found`.
unfoldable pub last_value : ℕ → List Dyn → ℕ → ℕ
last_value tag [] found = found
last_value tag (d ∷ dyns) found = last_value tag dyns (if d.d_tag == tag then d.d_val else found)

-- The loop of `rela_entries_from_dynamic` from index `i`, for `count` more.
unfoldable pub rela_loop : List ℕ → ℕ → ℕ → ℕ → Result ElfError (List Rela)
rela_loop file start i zero = ok []
rela_loop file start i (suc count) =
    read_at 24 decode_rela file ((start + i * 24) % 2 ^ 64) >>= λ (entry : Rela).
    rela_loop file start (i + 1) count >>= λ (entries : List Rela). ok (entry ∷ entries)

unfoldable pub rela_entries_from_dynamic : List ℕ → List Dyn → Result ElfError (List Rela)
unfolding last_value rela_loop
rela_entries_from_dynamic file dyns =
    let rela_size = last_value dt_relasz dyns 0 in
    rela_loop file (last_value dt_rela dyns 0) 0 (rela_size / 24)

-- `info & 0xffffffff` and `info >> 32`.
unfoldable pub rela_type : ℕ → ℕ
rela_type info = info % 2 ^ 32

unfoldable pub rela_sym : ℕ → ℕ
rela_sym info = info / 2 ^ 32
