-- ===== src/Vexec/Segments.antt =====
-- What src/vexec.rs does to the memory of a program that the dynamic linker has loaded: clearing its
-- initialisers, and the snapshot of its writable segments.
pub mod Snapshot
pub mod Initialisers
use vproc.Prelude.{
  ℕ, zero, suc, ◌+◌, ◌-◌, ◌*◌, ◌/◌, ◌%◌, ◌^◌, List, [], ◌∷◌, ◌++◌, Bool, true, false, ◌||◌, not,
  length, ◌==◌, if◌then◌else◌,
}
use vproc.Elf.Format.{Phdr, le}
use vproc.Elf.Headers.{pt_load}
use vproc.Elf.Dynamic.{pt_dynamic}
use vproc.Loader.{Memory, copy_bytes, write_word, System, page_align_down, page_align_up}

abbrev pub dt_init : ℕ
dt_init = 12

abbrev pub dt_init_array : ℕ
dt_init_array = 25

-- Bytes at an address.
unfoldable pub read_bytes : ℕ → ℕ → Memory → List ℕ
read_bytes addr zero memory = []
read_bytes addr (suc n) memory = memory addr ∷ read_bytes (addr + 1) n memory

-- `read_unaligned` of 64 bits.
unfoldable pub read_word : ℕ → Memory → ℕ
unfolding le read_bytes
read_word addr memory = le (read_bytes addr 8 memory)

-- `base + p_vaddr`
abbrev pub loaded_at : ℕ → Phdr → ℕ
loaded_at base phdr = (base + phdr.p_vaddr) % 2 ^ 64

abbrev pub is_init : ℕ → Bool
is_init tag = (tag == dt_init_array) || (tag == dt_init)

-- One round of the loop of `clear_init_arrays`, for the entry at an address.
unfoldable pub clear_entry : ℕ → Memory → Memory
unfolding read_word write_word
clear_entry addr memory =
    if is_init (read_word addr memory) then write_word (addr + 8) 0 memory else memory

-- `for i in 0..dyn_size`, over `n` entries from an address.
unfoldable pub clear_entries : ℕ → ℕ → Memory → Memory
unfolding clear_entry
clear_entries zero addr memory = memory
clear_entries (suc n) addr memory = clear_entries n (addr + 16) (clear_entry addr memory)

-- The first PT_DYNAMIC is the one that counts.
unfoldable pub clear_init_arrays : ℕ → List Phdr → Memory → Memory
unfolding clear_entries
clear_init_arrays base [] memory = memory
clear_init_arrays base (phdr ∷ phdrs) memory =
    let later = clear_init_arrays base phdrs memory in
    if phdr.p_type == pt_dynamic
    then clear_entries (phdr.p_memsz / 16) (loaded_at base phdr) memory
    else later

pub record WritableSegment : Type 0 where
  pub addr : ℕ
  pub bytes : List ℕ
  pub orig_flags : ℕ

-- PT_LOAD, with `PF_W` among the flags, and not empty.
unfoldable pub is_saved : Phdr → Bool
is_saved phdr =
    if not (phdr.p_type == pt_load)
    then false
    else (if phdr.p_flags / 2 % 2 == 0 then false else not (phdr.p_memsz == 0))

unfoldable pub save_writable_segments : ℕ → List Phdr → Memory → List WritableSegment
unfolding is_saved read_bytes
save_writable_segments base [] memory = []
save_writable_segments base (phdr ∷ phdrs) memory =
    let rest = save_writable_segments base phdrs memory in
    let segment : WritableSegment = record {
      addr = loaded_at base phdr;
      bytes = read_bytes (loaded_at base phdr) phdr.p_memsz memory;
      orig_flags = phdr.p_flags;
    } in
    if is_saved phdr then segment ∷ rest else rest

-- The permissions after the copy: 1 to read, 2 to write, which is always there, and 4 to execute.
unfoldable pub restored_prot : ℕ → ℕ
restored_prot flags = (if flags / 4 % 2 == 0 then 0 else 1) + 2 + (if flags % 2 == 0 then 0 else 4)

-- A call of `mprotect`: the start, the size, and the permissions.
pub record Protect : Type 0 where
  pub start : ℕ
  pub size : ℕ
  pub prot : ℕ

-- `PROT_READ | PROT_WRITE`
abbrev pub read_write : ℕ
read_write = 3

-- The pages of a segment.
abbrev pub pages_of : WritableSegment → ℕ → Protect
pages_of seg prot =
    let page_start = page_align_down seg.addr in
    let page_end = page_align_up ((seg.addr + length seg.bytes) % 2 ^ 64) in
    record { start = page_start; size = (page_end + 2 ^ 64 - page_start) % 2 ^ 64; prot = prot }

-- The memory, and the calls of `mprotect`.
unfoldable pub restore_one : System → WritableSegment → Memory → Memory × List Protect
unfolding copy_bytes restored_prot
restore_one sys seg memory =
    let open_call = pages_of seg read_write in
    let close_call = pages_of seg (restored_prot seg.orig_flags) in
    if length seg.bytes == 0
    then (memory, [])
    else (if sys.mprotect_ok open_call.start open_call.size read_write
        then (copy_bytes seg.addr seg.bytes memory, open_call ∷ close_call ∷ [])
        else (memory, open_call ∷ []))

unfoldable pub restore_writable_segments :
    System → List WritableSegment → Memory → Memory × List Protect
unfolding restore_one
restore_writable_segments sys [] memory = (memory, [])
restore_writable_segments sys (seg ∷ segments) memory =
    let (restored, calls) = restore_one sys seg memory in
    let (end, later) = restore_writable_segments sys segments restored in (end, calls ++ later)
