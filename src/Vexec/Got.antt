-- ===== src/Vexec/Got.antt =====
-- `patch_got_for_loaded_binary` of src/vexec.rs: the entries of the global offset table that the
-- interceptors replace. The address of our function for the name of a symbol, which is read as a C
-- string at an address and looked up in a fixed list of names, is a parameter: the linker gives it.
pub mod Patched
use vproc.Prelude.{
  ℕ, zero, suc, ◌+◌, ◌-◌, ◌*◌, ◌/◌, ◌%◌, ◌^◌, List, [], ◌∷◌, ◌++◌, Bool, ◌||◌, Option, none, some,
  contains, map, ◌==◌, if◌then◌else◌,
}
use vproc.Elf.Format.{Phdr, le}
use vproc.Elf.Dynamic.{pt_dynamic, rela_type, rela_sym}
use vproc.Loader.{Memory, write_word}
use vproc.Vexec.Segments.{read_bytes, read_word, loaded_at, Protect, read_write}

abbrev pub dt_pltrelsz : ℕ
dt_pltrelsz = 2

abbrev pub dt_strtab : ℕ
dt_strtab = 5

abbrev pub dt_symtab : ℕ
dt_symtab = 6

abbrev pub dt_jmprel : ℕ
dt_jmprel = 23

abbrev pub r_aarch64_jump_slot : ℕ
r_aarch64_jump_slot = 0x402

-- The value of the last of `n` entries from an address with the tag, or `found`.
unfoldable pub last_word : ℕ → ℕ → ℕ → Memory → ℕ → ℕ
unfolding read_word
last_word tag zero addr memory found = found
last_word tag (suc n) addr memory found =
    let value = read_word (addr + 8) memory in
    last_word tag n (addr + 16) memory (if read_word addr memory == tag then value else found)

-- The place of a table entry and what goes there.
pub record Patch : Type 0 where
  pub got_entry : ℕ
  pub our_addr : ℕ

-- `(got_entry as usize) & !0xfff`
abbrev pub page_of : Patch → ℕ
page_of patch = patch.got_entry - patch.got_entry % 4096

-- The set of pages, in the order in which they are first met.
unfoldable pub pages_of_patches : List Patch → List ℕ → List ℕ
pages_of_patches [] pages = pages
pages_of_patches (patch ∷ patches) pages =
    pages_of_patches patches
      (if contains (page_of patch) pages then pages else pages ++ page_of patch ∷ [])

-- The last loop over the patches.
unfoldable pub apply_patches : List Patch → Memory → Memory
unfolding write_word
apply_patches [] memory = memory
apply_patches (patch ∷ patches) memory =
    apply_patches patches (write_word patch.got_entry patch.our_addr memory)

-- `mprotect` of 0x2000 bytes from each page, whose result is not looked at.
abbrev pub protect_pages : ℕ → List ℕ → List Protect
protect_pages prot pages = map (λ page. record { start = page; size = 0x2000; prot = prot }) pages

module _ (interceptor : ℕ → Memory → Option ℕ) where
  -- The loop over the relocations: `n` of them from an address.
  unfoldable pub collect_patches : ℕ → ℕ → ℕ → ℕ → ℕ → Memory → List Patch
  unfolding read_word read_bytes le
  collect_patches base symtab strtab zero addr memory = []
  collect_patches base symtab strtab (suc n) addr memory =
      let rest = collect_patches base symtab strtab n (addr + 24) memory in
      let r_offset = read_word addr memory in
      let r_info = read_word (addr + 8) memory in
      let st_name = le (read_bytes (symtab + rela_sym r_info * 24) 4 memory) in
      let patched : List Patch = elim (interceptor (strtab + st_name) memory) [
        | none ↦ rest
        | some our_addr ↦
            record { got_entry = (base + r_offset) % 2 ^ 64; our_addr = our_addr } ∷ rest
      ] in
      if rela_type r_info == r_aarch64_jump_slot then patched else rest

  -- From the dynamic table at an address, of `count` entries: the patches.
  unfoldable pub patches_of : ℕ → ℕ → ℕ → Memory → List Patch
  unfolding last_word collect_patches
  patches_of base dyn_addr dyn_count memory =
      let jmprel = last_word dt_jmprel dyn_count dyn_addr memory 0 in
      let pltrelsz = last_word dt_pltrelsz dyn_count dyn_addr memory 0 in
      let symtab = last_word dt_symtab dyn_count dyn_addr memory 0 in
      let strtab = last_word dt_strtab dyn_count dyn_addr memory 0 in
      let patches =
        collect_patches base ((symtab + base) % 2 ^ 64) ((strtab + base) % 2 ^ 64) (pltrelsz / 24)
          ((jmprel + base) % 2 ^ 64) memory in
      if jmprel == 0 || symtab == 0 || strtab == 0 || pltrelsz == 0 then [] else patches

  -- The memory, and the calls of `mprotect`: to write, then to read only.
  unfoldable pub patch_got_for_loaded_binary : ℕ → List Phdr → Memory → Memory × List Protect
  unfolding patches_of pages_of_patches apply_patches
  patch_got_for_loaded_binary base [] memory = (memory, [])
  patch_got_for_loaded_binary base (phdr ∷ phdrs) memory =
      let later = patch_got_for_loaded_binary base phdrs memory in
      let patches = patches_of base (loaded_at base phdr) (phdr.p_memsz / 16) memory in
      let pages = pages_of_patches patches [] in
      let patched : Memory × List Protect =
        (apply_patches patches memory, protect_pages read_write pages ++ protect_pages 1 pages) in
      if phdr.p_type == pt_dynamic then patched else later
