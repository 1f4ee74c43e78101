-- ===== src/Vexec/Start.antt =====
-- `decode_adrp` and `extract_main_addr` of src/vexec.rs: the address of `main` from the instructions
-- of `_start`. The masks of the source are written as divisions and remainders.
pub mod Page
pub mod Found
use vproc.Prelude.{
  ℕ, zero, suc, ◌+◌, ◌-◌, ◌*◌, ◌/◌, ◌%◌, ◌^◌, Bool, ◌&&◌, not, Option, none, some, ltb, ◌==◌,
  if◌then◌else◌,
}

-- `(immhi << 2) | immlo`, of 21 bits.
unfoldable pub immediate : ℕ → ℕ
immediate insn = insn / 2 ^ 5 % 2 ^ 19 * 4 + insn / 2 ^ 29 % 4

-- `((imm << 12) >> 12) as usize` of an `i32`: the shift to the left drops all but 20 bits.
unfoldable pub sign_extended : ℕ → ℕ
sign_extended imm =
    let low = imm % 2 ^ 20 in if ltb low (2 ^ 19) then low else low + (2 ^ 64 - 2 ^ 20)

unfoldable pub decode_adrp : ℕ → ℕ → ℕ
unfolding immediate sign_extended
decode_adrp pc insn = (pc - pc % 2 ^ 12 + sign_extended (immediate insn) * 2 ^ 12 % 2 ^ 64) % 2 ^ 64

-- `(insn & 0xFFC0001F) == 0xF9400002`
unfoldable pub is_ldr_x2 : ℕ → Bool
is_ldr_x2 insn = (insn / 2 ^ 22 == 0x3e5) && (insn % 2 ^ 5 == 2)

-- `(insn & 0x9F000000) == 0x90000000` and the destination register.
unfoldable pub is_adrp : ℕ → ℕ → Bool
is_adrp rn insn = (insn / 2 ^ 31 == 1) && (insn / 2 ^ 24 % 2 ^ 5 == 16) && (insn % 2 ^ 5 == rn)

-- `(mid & 0xFFC00000) == 0x91000000` and the two registers.
unfoldable pub is_add : ℕ → ℕ → Bool
is_add rn mid = (mid / 2 ^ 22 == 0x244) && (mid % 2 ^ 5 == rn) && (mid / 2 ^ 5 % 2 ^ 5 == rn)

-- `(insn >> 10) & 0xFFF`
abbrev pub imm12 : ℕ → ℕ
imm12 insn = insn / 2 ^ 10 % 2 ^ 12

-- `(insn >> 5) & 0x1F`
abbrev pub base_register : ℕ → ℕ
base_register insn = insn / 2 ^ 5 % 2 ^ 5

-- `main_addr != 0 && main_addr.is_multiple_of(4)`
abbrev pub is_main : ℕ → Bool
is_main addr = not (addr == 0) && (addr % 4 == 0)

-- The instruction with an index, and the word at an address.
module _ (code : ℕ → ℕ) (word_at : ℕ → ℕ) (entry_addr : ℕ) where
  -- `for k in (j + 1)..i`, over `n` instructions from `k`.
  unfoldable pub find_add : ℕ → ℕ → ℕ → ℕ → ℕ
  unfolding is_add
  find_add rn zero k addend = addend
  find_add rn (suc n) k addend =
      find_add rn n (k + 1) (if is_add rn (code k) then imm12 (code k) else addend)

  -- The word that the pair at `j` and `i` refers to.
  unfoldable pub main_at : ℕ → ℕ → ℕ
  unfolding decode_adrp find_add
  main_at i j =
      let addend = find_add (base_register (code i)) (i - (j + 1)) (j + 1) 0 in
      word_at ((decode_adrp (entry_addr + j * 4) (code j) + addend + imm12 (code i) * 8) % 2 ^ 64)

  -- `for j in (0..i).rev()`: the argument is the upper end.
  unfoldable pub search_back : ℕ → ℕ → Option ℕ
  unfolding is_adrp main_at
  search_back i zero = none
  search_back i (suc j) =
      let earlier = search_back i j in
      if is_adrp (base_register (code i)) (code j) && is_main (main_at i j)
      then some (main_at i j)
      else earlier

  -- `for i in 0..48`, over `n` instructions from `i`.
  unfoldable pub search_from : ℕ → ℕ → Option ℕ
  unfolding is_ldr_x2 search_back
  search_from zero i = none
  search_from (suc n) i =
      let later = search_from n (i + 1) in
      if is_ldr_x2 (code i)
      then elim (search_back i i) [ some addr ↦ some addr | none ↦ later ]
      else later

  unfoldable pub extract_main_addr : Option ℕ
  unfolding search_from
  extract_main_addr = search_from 48 0
