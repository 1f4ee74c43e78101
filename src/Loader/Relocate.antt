-- ===== src/Loader/Relocate.antt =====
-- `apply_relative_relocations`: the words that it writes.
use vproc.Prelude.{
  ℕ, zero, suc, ◌+◌, ◌-◌, ◌%◌, ◌^◌, ◌<◌, ◌≡◌, inl, inr, refl, sym, ap, ◌∙◌, List, [], ◌∷◌, Bool,
  true, false, some, arith, length, retain, get_elem?, ◌==◌, Bool-cases, if◌then◌else◌,
}
use mathlib.Core.Path.{subst}
use vproc.Elf.Format.{Rela}
use vproc.Elf.Dynamic.{rela_type}
use vproc.Loader.{
  Memory, in_range, word_byte, write_word, apply_relative_relocations, r_aarch64_relative,
}

abbrev pub is_relative : Rela → Bool
is_relative r = rela_type r.r_info == r_aarch64_relative

abbrev pub target_of : ℕ → Rela → ℕ
target_of base r = (base + r.r_offset) % 2 ^ 64

-- An address is outside the words of all relative relocations.
abbrev pub IsClear : ℕ → ℕ → List Rela → Type 0
IsClear base addr [] = Unit {0}
IsClear base addr (r ∷ relas) =
    (is_relative r ≡ true → in_range (target_of base r) 8 addr ≡ false) × IsClear base addr relas

-- The words of the relative relocations do not overlap.
abbrev pub IsApart : ℕ → List Rela → Type 0
IsApart base [] = Unit {0}
IsApart base (r ∷ relas) =
    (is_relative r ≡ true → (i : ℕ) → i < 8 → IsClear base (target_of base r + i) relas)
    × IsApart base relas

-- The state after one relocation of the list.
after_one : ℕ → Rela → Memory → Memory
after_one base r memory =
    if is_relative r
    then write_word (target_of base r) ((base + r.r_addend) % 2 ^ 64) memory
    else memory

apply-after_one :
    (base : ℕ) (r : Rela) (relas : List Rela) (memory : Memory)
    → (apply_relative_relocations base (r ∷ relas) memory).1
      ≡ (apply_relative_relocations base relas (after_one base r memory)).1
unfolding apply_relative_relocations after_one
apply-after_one base r relas memory = elim (Bool-cases (is_relative r)) [
  | inl relative ↦ rw relative refl
  | inr other ↦ rw other refl
]

clear :
    (base addr : ℕ) (relas : List Rela) (memory : Memory)
    → IsClear base addr relas
    → (apply_relative_relocations base relas memory).1 addr ≡ memory addr
unfolding after_one write_word apply_relative_relocations
clear base addr [] memory h = refl
clear base addr (r ∷ relas) memory (h, all) =
    ap (λ (m : Memory). m addr) (apply-after_one base r relas memory)
    ∙ clear base addr relas (after_one base r memory) all
    ∙ elim (Bool-cases (is_relative r)) [
      | inl relative ↦ rw (relative, h relative) refl
      | inr other ↦ rw other refl
    ]

counted :
    (base : ℕ) (relas : List Rela) (memory : Memory)
    → (apply_relative_relocations base relas memory).0 ≡ length (retain is_relative relas)
unfolding apply_relative_relocations
counted base [] memory = refl
counted base (r ∷ relas) memory = elim (Bool-cases (is_relative r)) [
  | inl relative ↦
      let written = write_word (target_of base r) ((base + r.r_addend) % 2 ^ 64) memory in
      let rest = counted base relas written in rw relative (omega (arith, rest))
  | inr other ↦ rw other (counted base relas memory)
]

relocated :
    (base : ℕ) (relas : List Rela) (memory : Memory) (j i : ℕ) (r : Rela)
    → IsApart base relas
    → get_elem? relas j ≡ some r
    → is_relative r ≡ true
    → i < 8
    → (apply_relative_relocations base relas memory).1 (target_of base r + i)
      ≡ word_byte ((base + r.r_addend) % 2 ^ 64) i
unfolding after_one write_word
relocated base [] memory j i r apart e relative small = absurd (ground arith)
relocated base (q ∷ relas) memory zero i r (alone, apart) e relative small =
    let same : q ≡ r = ground arith in
    let lone =
      subst (λ (x : Rela). IsClear base (target_of base x + i) relas) same
        (alone (subst (λ (x : Rela). is_relative x ≡ true) (sym same) relative) i small) in
    ap (λ (m : Memory). m (target_of base r + i)) (apply-after_one base q relas memory)
    ∙ clear base (target_of base r + i) relas (after_one base q memory) lone
    ∙ subst
        (λ (x : Rela).
          after_one base x memory (target_of base r + i)
          ≡ word_byte ((base + r.r_addend) % 2 ^ 64) i)
        (sym same) written
  where
    distance : target_of base r + i - target_of base r ≡ i
    distance = omega arith

    within : in_range (target_of base r) 8 (target_of base r + i) ≡ true
    within = ground arith

    written :
        after_one base r memory (target_of base r + i) ≡ word_byte ((base + r.r_addend) % 2 ^ 64) i
    written = rw (relative, within, distance) refl
relocated base (q ∷ relas) memory (suc j) i r (alone, apart) e relative small =
    ap (λ (m : Memory). m (target_of base r + i)) (apply-after_one base q relas memory)
    ∙ relocated base relas (after_one base q memory) j i r apart e relative small

-- `apply_relative_relocations` counts the relative relocations. Where their words do not overlap, each
-- word then holds the base plus the addend of its relocation, and no byte outside the words
-- changes.
pub relocations_lem :
    (base : ℕ) (relas : List Rela) (memory : Memory)
    → IsApart base relas
    → let (count, memory') = apply_relative_relocations base relas memory in
      (count ≡ length (retain is_relative relas))
      × ((j i : ℕ) (r : Rela)
          → get_elem? relas j ≡ some r
          → is_relative r ≡ true
          → i < 8
          → memory' (target_of base r + i) ≡ word_byte ((base + r.r_addend) % 2 ^ 64) i)
      × ((addr : ℕ) → IsClear base addr relas → memory' addr ≡ memory addr)
relocations_lem base relas memory apart = (
  counted base relas memory,
  λ j i r e relative small. relocated base relas memory j i r apart e relative small,
  λ addr h. clear base addr relas memory h,
)
