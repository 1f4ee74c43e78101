-- ===== src/Vexec/Got/Patched.antt =====
-- What stands in the global offset table after the patches.
use vproc.Prelude.{
  ℕ, zero, suc, ◌+◌, ◌-◌, ◌^◌, ◌≤◌, ◌<◌, ◌≡◌, ◌⊎◌, refl, ap, ◌∙◌, List, [], ◌∷◌, true, false, some,
  arith, get_elem?, inl, inr,
}
use mathlib.Core.Path.{subst}
use vproc.Elf.Format.{le}
use vproc.Loader.{Memory, in_range, word_byte, write_word}
use vproc.Vexec.Segments.{read_bytes, read_word}
use vproc.Vexec.Segments.Initialisers.{read_word_same, write_word_others}
use vproc.Vexec.Got.{Patch, apply_patches}

le_eight :
    (value : ℕ)
    → value < 2 ^ 64
    → le (
        word_byte value 0
        ∷ word_byte value 1
        ∷ word_byte value 2
        ∷ word_byte value 3
        ∷ word_byte value 4
        ∷ word_byte value 5
        ∷ word_byte value 6
        ∷ word_byte value 7
        ∷ [])
      ≡ value
unfolding le
le_eight value small = omega arith

-- `n` bytes of a word from the byte `i`.
abbrev bytes_from : ℕ → ℕ → ℕ → List ℕ
bytes_from value i zero = []
bytes_from value i (suc n) = word_byte value i ∷ bytes_from value (i + 1) n

read_bytes-write_word :
    (addr value i n : ℕ) (m : Memory)
    → i + n ≤ 8
    → read_bytes (addr + i) n (write_word addr value m) ≡ bytes_from value i n
unfolding read_bytes write_word
read_bytes-write_word addr value i zero m inside = refl
read_bytes-write_word addr value i (suc n) m inside =
    let here : in_range addr 8 (addr + i) ≡ true = ground arith in
    let distance : addr + i - addr ≡ i = omega arith in
    let on : addr + i + 1 ≡ addr + (i + 1) = omega arith in
    let rest = read_bytes-write_word addr value (i + 1) n m (omega arith) in
    ground (arith, here, distance, on, rest)

read_word-write_word :
    (addr value : ℕ) (m : Memory)
    → value < 2 ^ 64
    → read_word addr (write_word addr value m) ≡ value
unfolding read_word
read_word-write_word addr value m small =
    let start : addr + 0 ≡ addr = omega arith in
    ap le (
      subst (λ x. read_bytes x 8 (write_word addr value m) ≡ bytes_from value 0 8) start
        (read_bytes-write_word addr value 0 8 m (omega arith)))
    ∙ le_eight value small

-- The words at two addresses do not overlap.
abbrev pub IsClear : ℕ → ℕ → Type 0
IsClear a b = (a + 8 ≤ b) ⊎ (b + 8 ≤ a)

abbrev pub IsClearOf : ℕ → List Patch → Type 0
IsClearOf at [] = Unit
IsClearOf at (patch ∷ patches) = IsClear at patch.got_entry × IsClearOf at patches

abbrev pub AreClear : List Patch → Type 0
AreClear [] = Unit
AreClear (patch ∷ patches) = IsClearOf patch.got_entry patches × AreClear patches

abbrev pub AreWords : List Patch → Type 0
AreWords [] = Unit
AreWords (patch ∷ patches) = (patch.our_addr < 2 ^ 64) × AreWords patches

outside : (a b i : ℕ) → IsClear a b → i < 8 → in_range b 8 (a + i) ≡ false
outside a b i (inl before) lt = ground arith
outside a b i (inr behind) lt = ground arith

-- A word clear of all patches stays.
pub read_word-apply_patches :
    (patches : List Patch) (at : ℕ) (m : Memory)
    → IsClearOf at patches
    → read_word at (apply_patches patches m) ≡ read_word at m
unfolding apply_patches
read_word-apply_patches [] at m clear = refl
read_word-apply_patches (patch ∷ patches) at m clear =
    let written = write_word patch.got_entry patch.our_addr m in
    read_word-apply_patches patches at written clear.1
    ∙ read_word_same at written m (λ i lt.
      write_word_others patch.got_entry patch.our_addr (at + i) m
        (outside at patch.got_entry i clear.0 lt))

-- Where the entries do not overlap, each of them holds the address of our function afterwards.
pub apply_patches_lem :
    (patches : List Patch) (i : ℕ) (patch : Patch) (m : Memory)
    → AreClear patches
    → AreWords patches
    → get_elem? patches i ≡ some patch
    → read_word patch.got_entry (apply_patches patches m) ≡ patch.our_addr
unfolding apply_patches
apply_patches_lem [] i patch m clear words h = cc
apply_patches_lem (first ∷ patches) zero patch m clear words h =
    let is_first : first ≡ patch = ground arith in
    subst (λ (p : Patch). read_word p.got_entry (apply_patches (first ∷ patches) m) ≡ p.our_addr)
      is_first
      (read_word-apply_patches patches first.got_entry (write_word first.got_entry first.our_addr m)
          clear.0
        ∙ read_word-write_word first.got_entry first.our_addr m words.0)
apply_patches_lem (first ∷ patches) (suc i) patch m clear words h =
    apply_patches_lem patches i patch (write_word first.got_entry first.our_addr m) clear.1 words.1
      h
