-- ===== src/Vexec/Segments/Initialisers.antt =====
-- What `clear_init_arrays` does to the dynamic table in memory.
use vproc.Prelude.{
  ℕ, zero, suc, ◌+◌, ◌-◌, ◌*◌, ◌/◌, ◌≤◌, ◌<◌, ◌≡◌, ◌⊎◌, refl, ap, ◌∙◌, List, [], ◌∷◌, ◌++◌, ◌||◌,
  ◌%◌, ◌^◌, true, false, arith, ◌==◌, if◌then◌else◌, Bool-cases, inl, inr,
}
use mathlib.Core.Path.{subst}
use vproc.Elf.Format.{Phdr, le}
use vproc.Loader.{Memory, in_range, word_byte, write_word}
use vproc.Vexec.Segments.{
  read_bytes, read_word, is_init, clear_entry, clear_entries, loaded_at, clear_init_arrays,
}

word_byte_zero : (i : ℕ) → word_byte 0 i ≡ 0
word_byte_zero zero = refl
word_byte_zero (suc i) = word_byte_zero i

read_bytes_same :
    (addr n : ℕ) (m m' : Memory)
    → ((i : ℕ) → i < n → m (addr + i) ≡ m' (addr + i))
    → read_bytes addr n m ≡ read_bytes addr n m'
unfolding read_bytes
read_bytes_same addr zero m m' h = refl
read_bytes_same addr (suc n) m m' h =
    let first : m addr ≡ m' addr =
      subst (λ x. m x ≡ m' x) (let at : addr + 0 ≡ addr = omega arith in at) (h 0 (omega arith)) in
    let rest : read_bytes (addr + 1) n m ≡ read_bytes (addr + 1) n m' =
      read_bytes_same (addr + 1) n m m' (λ i lt.
        subst (λ x. m x ≡ m' x) (let at : addr + suc i ≡ addr + 1 + i = omega arith in at)
          (h (suc i) (omega arith))) in
    ground (arith, first, rest)

pub read_word_same :
    (addr : ℕ) (m m' : Memory)
    → ((i : ℕ) → i < 8 → m (addr + i) ≡ m' (addr + i))
    → read_word addr m ≡ read_word addr m'
unfolding read_word
read_word_same addr m m' h = ap le (read_bytes_same addr 8 m m' h)

write_word_zero : (addr i : ℕ) (m : Memory) → i < 8 → write_word addr 0 m (addr + i) ≡ 0
unfolding write_word
write_word_zero addr i m lt =
    let inside : in_range addr 8 (addr + i) ≡ true = ground arith in
    rw inside (word_byte_zero (addr + i - addr))

read_word_nothing : (addr : ℕ) → read_word addr (λ x. 0) ≡ 0
unfolding read_word read_bytes le
read_word_nothing addr = refl

read_word-write_word_zero : (addr : ℕ) (m : Memory) → read_word addr (write_word addr 0 m) ≡ 0
read_word-write_word_zero addr m =
    read_word_same addr (write_word addr 0 m) (λ x. 0) (λ i lt. write_word_zero addr i m lt)
    ∙ read_word_nothing addr

-- Outside the eight bytes nothing changes.
pub write_word_others :
    (target value at : ℕ) (m : Memory)
    → in_range target 8 at ≡ false
    → write_word target value m at ≡ m at
unfolding write_word
write_word_others target value at m h = ground (arith, h)

-- The words at an address that the entry's value does not touch.
read_word-clear_entry :
    (addr at : ℕ) (m : Memory)
    → (at + 8 ≤ addr + 8) ⊎ (addr + 16 ≤ at)
    → read_word at (clear_entry addr m) ≡ read_word at m
unfolding clear_entry
read_word-clear_entry addr at m apart = elim (Bool-cases (is_init (read_word addr m))) [
  | inr other ↦ rw other refl
  | inl init ↦ rw init (
      read_word_same at (write_word (addr + 8) 0 m) m
        (λ i lt. write_word_others (addr + 8) 0 (at + i) m (out apart i lt)))
]
  where
    out :
        (at + 8 ≤ addr + 8) ⊎ (addr + 16 ≤ at)
        → (i : ℕ) → i < 8
        → in_range (addr + 8) 8 (at + i) ≡ false
    out (inl before) i lt = ground arith
    out (inr behind) i lt = ground arith

-- What the value of an entry is after the loop: 0 for DT_INIT_ARRAY and DT_INIT, which are 25 and 12.
abbrev pub cleared : ℕ → ℕ → ℕ
cleared tag value = if (tag == 25) || (tag == 12) then 0 else value

value-clear_entry :
    (addr : ℕ) (m : Memory)
    → read_word (addr + 8) (clear_entry addr m)
      ≡ cleared (read_word addr m) (read_word (addr + 8) m)
unfolding clear_entry
value-clear_entry addr m = elim (Bool-cases (is_init (read_word addr m))) [
  | inr other ↦ rw other refl
  | inl init ↦ rw init (read_word-write_word_zero (addr + 8) m)
]

-- A word before the entries stays.
read_word-clear_entries :
    (n addr at : ℕ) (m : Memory)
    → at + 8 ≤ addr + 8
    → read_word at (clear_entries n addr m) ≡ read_word at m
unfolding clear_entries
read_word-clear_entries zero addr at m before = refl
read_word-clear_entries (suc n) addr at m before =
    read_word-clear_entries n (addr + 16) at (clear_entry addr m) (omega arith)
    ∙ read_word-clear_entry addr at m (inl before)

-- After the loop, the tag of each entry is as before, and its value is cleared.
clear_entries_lem :
    (n addr i : ℕ) (m : Memory)
    → i < n
    → let entry = addr + i * 16 in
      (read_word entry (clear_entries n addr m) ≡ read_word entry m)
      × (read_word (entry + 8) (clear_entries n addr m)
          ≡ cleared (read_word entry m) (read_word (entry + 8) m))
unfolding clear_entries
clear_entries_lem zero addr i m lt = absurd (omega arith)
clear_entries_lem (suc n) addr zero m lt =
    let m' = clear_entry addr m in
    let here : addr + 0 * 16 ≡ addr = omega arith in
    rw here (
      read_word-clear_entries n (addr + 16) addr m' (omega arith)
          ∙ read_word-clear_entry addr addr m (inl (omega arith)),
      read_word-clear_entries n (addr + 16) (addr + 8) m' (omega arith) ∙ value-clear_entry addr m,
    )
clear_entries_lem (suc n) addr (suc i) m lt =
    let m' = clear_entry addr m in
    let at = addr + 16 + i * 16 in
    let there : addr + suc i * 16 ≡ at = omega arith in
    let (tag, value) = clear_entries_lem n (addr + 16) i m' (omega arith) in
    let tag_same : read_word at m' ≡ read_word at m =
      read_word-clear_entry addr at m (inr (omega arith)) in
    let value_same : read_word (at + 8) m' ≡ read_word (at + 8) m =
      read_word-clear_entry addr (at + 8) m (inr (omega arith)) in
    rw there (ground (arith, tag, tag_same), ground (arith, value, tag_same, value_same))

clear_entry_others :
    (addr at : ℕ) (m : Memory) → in_range addr 16 at ≡ false → clear_entry addr m at ≡ m at
unfolding clear_entry
clear_entry_others addr at m h = ground (
  arith,
  write_word_others (addr + 8) 0 at m
      (let out : in_range (addr + 8) 8 at ≡ false = ground (arith, h) in out),
)

clear_entries_others :
    (n addr at : ℕ) (m : Memory)
    → in_range addr (n * 16) at ≡ false
    → clear_entries n addr m at ≡ m at
unfolding clear_entries
clear_entries_others zero addr at m h = refl
clear_entries_others (suc n) addr at m h =
    let first : in_range addr 16 at ≡ false = ground (arith, h) in
    let later : in_range (addr + 16) (n * 16) at ≡ false = ground (arith, h) in
    clear_entries_others n (addr + 16) at (clear_entry addr m) later
    ∙ clear_entry_others addr at m first

-- No header of the list is that of a dynamic table.
abbrev pub NoneDynamic : List Phdr → Type 0
NoneDynamic [] = Unit {0}
NoneDynamic (phdr ∷ phdrs) = ((phdr.p_type == 2) ≡ false) × NoneDynamic phdrs

clear_init_arrays-first :
    (base : ℕ) (before after : List Phdr) (phdr : Phdr) (m : Memory)
    → NoneDynamic before
    → (phdr.p_type == 2) ≡ true
    → clear_init_arrays base (before ++ phdr ∷ after) m
      ≡ clear_entries (phdr.p_memsz / 16) (loaded_at base phdr) m
unfolding clear_init_arrays
clear_init_arrays-first base [] after phdr m none_before dynamic = rw dynamic refl
clear_init_arrays-first base (other ∷ before) after phdr m (plain, none_before) dynamic =
    rw plain (clear_init_arrays-first base before after phdr m none_before dynamic)

-- With the first PT_DYNAMIC header of the program, wherever it stands among the headers: every entry of
-- the dynamic table keeps its tag, the value of an entry for DT_INIT or DT_INIT_ARRAY is 0 afterwards,
-- the value of any other is as before, and no byte outside the table changes.
pub clear_init_arrays_lem :
    (base : ℕ) (before after : List Phdr) (phdr : Phdr) (m : Memory)
    → NoneDynamic before
    → (phdr.p_type == 2) ≡ true
    → let count = phdr.p_memsz / 16 in
      let start = (base + phdr.p_vaddr) % 2 ^ 64 in
      let m' = clear_init_arrays base (before ++ phdr ∷ after) m in
      ((i : ℕ)
        → i < count
        → let entry = start + i * 16 in
          (read_word entry m' ≡ read_word entry m)
          × (read_word (entry + 8) m' ≡ cleared (read_word entry m) (read_word (entry + 8) m)))
      × ((at : ℕ) → in_range start (count * 16) at ≡ false → m' at ≡ m at)
clear_init_arrays_lem base before after phdr m none_before dynamic =
    rw (clear_init_arrays-first base before after phdr m none_before dynamic) (
      (λ i lt. clear_entries_lem (phdr.p_memsz / 16) (loaded_at base phdr) i m lt),
      λ at out. clear_entries_others (phdr.p_memsz / 16) (loaded_at base phdr) at m out,
    )
