-- ===== src/Vexec/Segments/Snapshot.antt =====
-- Restoring a snapshot of the writable segments.
use vproc.Prelude.{
  ℕ, zero, suc, ◌+◌, ◌-◌, ◌<◌, ◌≡◌, ◌/◌, ◌%◌, ◌^◌, ◌&&◌, ◌||◌, ◌∙◌, ap, refl, sym, List, [], ◌∷◌,
  Bool, true, false, none, some, arith, length, ◌==◌, get_elem?, any, ltb, leb, if◌then◌else◌,
  Bool-cases, inl, inr, get_elem?-none,
}
use mathlib.Core.Path.{subst}
use vproc.Elf.Format.{Phdr}
use vproc.Loader.{Memory, in_range, copy_bytes, System}
use vproc.Vexec.Segments.{
  read_bytes, loaded_at, WritableSegment, save_writable_segments, is_saved, read_write, restore_one,
  pages_of, restore_writable_segments,
}

length-read_bytes : (addr n : ℕ) (memory : Memory) → length (read_bytes addr n memory) ≡ n
unfolding read_bytes
length-read_bytes addr zero memory = refl
length-read_bytes addr (suc n) memory = omega (arith, length-read_bytes (addr + 1) n memory)

get_elem?-read_bytes :
    (addr n i : ℕ) (memory : Memory)
    → i < n
    → get_elem? (read_bytes addr n memory) i ≡ some (memory (addr + i))
unfolding read_bytes
get_elem?-read_bytes addr zero i memory h = absurd (omega arith)
get_elem?-read_bytes addr (suc n) zero memory h =
    let at : addr + 0 ≡ addr = omega arith in rw at refl
get_elem?-read_bytes addr (suc n) (suc i) memory h =
    let at : addr + suc i ≡ addr + 1 + i = omega arith in
    rw at (get_elem?-read_bytes (addr + 1) n i memory (omega arith))

-- The bytes are those of the memory at the address.
abbrev pub IsSnapshot : Memory → WritableSegment → Type 0
IsSnapshot memory seg = seg.bytes ≡ read_bytes seg.addr (length seg.bytes) memory

abbrev pub AreSnapshots : Memory → List WritableSegment → Type 0
AreSnapshots memory [] = Unit
AreSnapshots memory (seg ∷ segments) = IsSnapshot memory seg × AreSnapshots memory segments

-- An address is inside one of the segments.
abbrev pub is_covered : List WritableSegment → ℕ → Bool
is_covered segments at = any (λ seg. in_range seg.addr (length seg.bytes) at) segments

save-AreSnapshots :
    (base : ℕ) (phdrs : List Phdr) (memory : Memory)
    → AreSnapshots memory (save_writable_segments base phdrs memory)
unfolding save_writable_segments
save-AreSnapshots base [] memory = tt
save-AreSnapshots base (phdr ∷ phdrs) memory = ground (
  arith,
  save-AreSnapshots base phdrs memory,
  length-read_bytes (loaded_at base phdr) phdr.p_memsz memory,
)

-- `mprotect` lets the pages be written.
abbrev pub IsWritable : System → Type 0
IsWritable sys = (start size : ℕ) → sys.mprotect_ok start size read_write ≡ true

copy_bytes-read_bytes :
    (addr n at : ℕ) (saved memory : Memory)
    → copy_bytes addr (read_bytes addr n saved) memory at
      ≡ (if in_range addr n at then saved at else memory at)
unfolding copy_bytes
copy_bytes-read_bytes addr n at saved memory = elim (Bool-cases (leb addr at)) [
  | inr below ↦ ground (arith, below)
  | inl above ↦ elim (Bool-cases (ltb at (addr + n))) [
    | inl inside ↦
        let same : addr + (at - addr) ≡ at = ground arith in
        let got : get_elem? (read_bytes addr n saved) (at - addr) ≡ some (saved at) =
          subst (λ x. get_elem? (read_bytes addr n saved) (at - addr) ≡ some (saved x)) same
            (get_elem?-read_bytes addr n (at - addr) saved (ground arith)) in
        ground (arith, above, inside, got)
    | inr past ↦
        let got : get_elem? (read_bytes addr n saved) (at - addr) ≡ none =
          get_elem?-none (at - addr) (read_bytes addr n saved)
            (rw (length-read_bytes addr n saved) (ground arith)) in
        ground (arith, above, past, got)
  ]
]

restore_one_lem :
    (sys : System) (seg : WritableSegment) (saved memory : Memory) (at : ℕ)
    → IsWritable sys
    → IsSnapshot saved seg
    → (restore_one sys seg memory).0 at
      ≡ (if in_range seg.addr (length seg.bytes) at then saved at else memory at)
unfolding restore_one
restore_one_lem sys seg saved memory at writable snapshot =
    let copied : copy_bytes seg.addr seg.bytes memory at
        ≡ (if in_range seg.addr (length seg.bytes) at then saved at else memory at) =
      subst
        (λ bytes.
          copy_bytes seg.addr bytes memory at
          ≡ (if in_range seg.addr (length seg.bytes) at then saved at else memory at))
        (sym snapshot) (copy_bytes-read_bytes seg.addr (length seg.bytes) at saved memory) in
    let call = pages_of seg read_write in
    let granted : sys.mprotect_ok call.start call.size read_write ≡ true =
      writable call.start call.size in
    elim (Bool-cases (length seg.bytes == 0)) [
      | inl empty ↦
          let outside : in_range seg.addr (length seg.bytes) at ≡ false = ground (arith, empty) in
          rw (empty, outside) refl
      | inr full ↦ rw (full, granted) copied
    ]

restore-AreSnapshots :
    (sys : System) (segments : List WritableSegment) (saved memory : Memory) (at : ℕ)
    → IsWritable sys
    → AreSnapshots saved segments
    → (restore_writable_segments sys segments memory).0 at
      ≡ (if is_covered segments at then saved at else memory at)
unfolding restore_writable_segments
restore-AreSnapshots sys [] saved memory at writable snapshots = refl
restore-AreSnapshots sys (seg ∷ segments) saved memory at writable snapshots = ground (
  arith,
  restore-AreSnapshots sys segments saved (restore_one sys seg memory).0 at writable snapshots.1,
  restore_one_lem sys seg saved memory at writable snapshots.0,
)

-- The program headers tell that the address is in the memory of a PT_LOAD segment with PF_W set.
abbrev pub is_program_data : ℕ → List Phdr → ℕ → Bool
is_program_data base [] at = false
is_program_data base (phdr ∷ phdrs) at =
    ((phdr.p_type == 1)
      && (phdr.p_flags / 2 % 2 == 1)
      && in_range ((base + phdr.p_vaddr) % 2 ^ 64) phdr.p_memsz at)
    || is_program_data base phdrs at

is_covered-save :
    (base : ℕ) (phdrs : List Phdr) (saved : Memory) (at : ℕ)
    → is_covered (save_writable_segments base phdrs saved) at ≡ is_program_data base phdrs at
unfolding save_writable_segments is_saved
is_covered-save base [] saved at = refl
is_covered-save base (phdr ∷ phdrs) saved at = ground (
  arith,
  is_covered-save base phdrs saved at,
  length-read_bytes (loaded_at base phdr) phdr.p_memsz saved,
)

-- Restoring what was saved brings the program's data back: where the system lets the pages be written,
-- every byte in the memory of a PT_LOAD segment with PF_W set is again what it was when the segments
-- were saved, whatever the program has written since, and every other byte stays as it is.
pub restore-save :
    (sys : System) (base : ℕ) (phdrs : List Phdr) (saved memory : Memory) (at : ℕ)
    → IsWritable sys
    → let segments = save_writable_segments base phdrs saved in
      (restore_writable_segments sys segments memory).0 at
      ≡ (if is_program_data base phdrs at then saved at else memory at)
restore-save sys base phdrs saved memory at writable =
    restore-AreSnapshots sys (save_writable_segments base phdrs saved) saved memory at writable
      (save-AreSnapshots base phdrs saved)
    ∙ ap (λ b. if b then saved at else memory at) (is_covered-save base phdrs saved at)
