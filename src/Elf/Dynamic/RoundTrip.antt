-- ===== src/Elf/Dynamic/RoundTrip.antt =====
-- Reading back the dynamic table and the relocations of a file.
use vproc.Prelude.{
  ℕ, zero, suc, ◌+◌, ◌*◌, ◌/◌, ◌%◌, ◌^◌, ◌≤◌, ◌<◌, ◌≡◌, ◌≢◌, refl, ap, ◌∙◌, List, [], ◌∷◌, ◌++◌,
  true, false, arith, length, length-append, ltb, ◌==◌, ne→==, ok,
}
use vproc.Elf.Format.{Phdr, Dyn, Rela, decode_dyn, decode_rela}
use vproc.Elf.Format.Encode.{
  encode_dyn, length-encode_dyn, DynFits, decode-encode_dyn, encode_rela, length-encode_rela,
  RelaFits, decode-encode_rela, encode_all, All, read_at-head, encode_all-tail,
}
use vproc.Elf.Dynamic.{
  pt_dynamic, dt_null, dt_rela, dt_relasz, dyn_loop, dynamic_at, dynamic_entries, last_value,
  rela_loop, rela_entries_from_dynamic,
}

rela_loop_lem :
    (relas : List Rela) (before after : List ℕ) (start i : ℕ)
    → start + i * 24 ≡ length before
    → length before + 24 * length relas < 2 ^ 64
    → All RelaFits relas
    → rela_loop (before ++ (encode_all encode_rela relas ++ after)) start i (length relas)
      ≡ ok relas
unfolding rela_loop
rela_loop_lem [] before after start i at_start room fits = refl
rela_loop_lem (r ∷ relas) before after start i at_start room (fit, fits) =
    let offset : (start + i * 24) % 2 ^ 64 ≡ length before = omega arith in
    let head =
      read_at-head 24 decode_rela encode_rela before after r relas ((start + i * 24) % 2 ^ 64)
        offset (length-encode_rela r) (omega arith) (decode-encode_rela r fit) in
    let longer = length-append before (encode_rela r) in
    let size = length-encode_rela r in
    let tail =
      rela_loop_lem relas (before ++ encode_rela r) after start (i + 1) (omega arith) (omega arith)
        fits in
    let rest =
      ap (λ (file : List ℕ). rela_loop file start (i + 1) (length relas))
        (encode_all-tail 24 decode_rela encode_rela before after r relas)
      ∙ tail in
    rw (head, rest) refl

-- Relocations that a file holds one after the other, at the place and of the total size that the
-- dynamic table names, are what `rela_entries_from_dynamic` returns, in order.
pub rela_entries_round_trip :
    (dyns : List Dyn) (relas : List Rela) (before after : List ℕ)
    → last_value dt_rela dyns 0 ≡ length before
    → last_value dt_relasz dyns 0 ≡ 24 * length relas
    → length before + 24 * length relas < 2 ^ 64
    → All RelaFits relas
    → rela_entries_from_dynamic (before ++ (encode_all encode_rela relas ++ after)) dyns ≡ ok relas
unfolding rela_entries_from_dynamic
rela_entries_round_trip dyns relas before after at_start size room fits =
    let number : 24 * length relas / 24 ≡ length relas = omega arith in
    rw (at_start, size, number)
      (rela_loop_lem relas before after (length before) 0 (omega arith) room fits)

-- An entry of the dynamic table that is not its end.
abbrev pub IsEntry : Dyn → Type 0
IsEntry d = DynFits d × (d.d_tag ≢ dt_null)

abbrev pub end_entry : Dyn
end_entry = record { d_tag = 0; d_val = 0 }

dyn_loop_lem :
    (dyns : List Dyn) (before after : List ℕ) (start i count : ℕ)
    → start + i * 16 ≡ length before
    → length before + 16 * length dyns + 16 < 2 ^ 64
    → length dyns < count
    → All IsEntry dyns
    → dyn_loop (before ++ (encode_all encode_dyn (dyns ++ end_entry ∷ []) ++ after)) start i count
      ≡ ok dyns
unfolding dyn_loop
dyn_loop_lem dyns before after start i zero at_start room enough fits = absurd (omega arith)
dyn_loop_lem [] before after start i (suc count) at_start room enough fits =
    let offset : (start + i * 16) % 2 ^ 64 ≡ length before = omega arith in
    let head =
      read_at-head 16 decode_dyn encode_dyn before after end_entry [] ((start + i * 16) % 2 ^ 64)
        offset (length-encode_dyn end_entry) (omega arith)
        (decode-encode_dyn end_entry (record { tag_in = omega arith; val_in = omega arith })) in
    rw head refl
dyn_loop_lem (d ∷ dyns) before after start i (suc count) at_start room enough ((fit, ne), fits) =
    let offset : (start + i * 16) % 2 ^ 64 ≡ length before = omega arith in
    let size = length-encode_dyn d in
    let head =
      read_at-head 16 decode_dyn encode_dyn before after d (dyns ++ end_entry ∷ [])
        ((start + i * 16) % 2 ^ 64) offset size (omega arith) (decode-encode_dyn d fit) in
    let longer = length-append before (encode_dyn d) in
    let tail =
      dyn_loop_lem dyns (before ++ encode_dyn d) after start (i + 1) count (omega arith)
        (omega arith) (omega arith) fits in
    let rest =
      ap (λ (file : List ℕ). dyn_loop file start (i + 1) count)
        (encode_all-tail 16 decode_dyn encode_dyn before after d (dyns ++ end_entry ∷ []))
      ∙ tail in
    let going : (d.d_tag == dt_null) ≡ false = ne→== d.d_tag dt_null ne in
    rw (head, rest, going) refl

abbrev pub IsOther : Phdr → Type 0
IsOther p = p.p_type ≢ pt_dynamic

dynamic_entries-dynamic_at :
    (file : List ℕ) (others rest : List Phdr) (phdr : Phdr)
    → All IsOther others
    → phdr.p_type ≡ pt_dynamic
    → dynamic_entries file (others ++ phdr ∷ rest) ≡ dynamic_at file phdr
unfolding dynamic_entries
dynamic_entries-dynamic_at file [] rest phdr all h =
    let there : (phdr.p_type == pt_dynamic) ≡ true = ground arith in rw there refl
dynamic_entries-dynamic_at file (p ∷ others) rest phdr (ne, all) h =
    let other : (p.p_type == pt_dynamic) ≡ false = ne→== p.p_type pt_dynamic ne in
    rw other (dynamic_entries-dynamic_at file others rest phdr all h)

-- The entries of a dynamic table that ends with a null entry, at the place that the first
-- PT_DYNAMIC program header names and within the size that it names, are what `dynamic_entries`
-- returns, in order and without the end.
pub dynamic_entries_round_trip :
    (others rest : List Phdr) (phdr : Phdr) (dyns : List Dyn) (before after file : List ℕ)
    → file ≡ before ++ (encode_all encode_dyn (dyns ++ end_entry ∷ []) ++ after)
    → All IsOther others
    → phdr.p_type ≡ pt_dynamic
    → phdr.p_offset ≡ length before
    → 16 * length dyns + 16 ≤ phdr.p_filesz
    → length before + phdr.p_filesz ≤ length file
    → length file < 2 ^ 64
    → All IsEntry dyns
    → dynamic_entries file (others ++ phdr ∷ rest) ≡ ok dyns
unfolding dynamic_at
dynamic_entries_round_trip others rest phdr dyns before after file e all h at_start room inside
      small fits =
    let fine : ltb (length file) ((length before + phdr.p_filesz) % 2 ^ 64) ≡ false =
      ground arith in
    let entries =
      dyn_loop_lem dyns before after (length before) 0 (phdr.p_filesz / 16) (omega arith)
        (omega arith) (omega arith) fits in
    dynamic_entries-dynamic_at file others rest phdr all h ∙ rw (at_start, fine, e) entries
