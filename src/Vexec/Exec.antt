-- ===== src/Vexec/Exec.antt =====
-- The functions of src/vexec.rs that start a program: static, through the dynamic linker and its
-- `main`, or through the dynamic linker and its entry point. The dynamic linker, the file system, the
-- allocator and minicoro are an interface on a state `K`. An argument has no zero byte inside, since it
-- comes from a C string.
pub mod Entry
pub mod Whole
pub mod Outcome
pub mod Stack
use vproc.Prelude.{
  ℕ, ◌+◌, ◌-◌, ◌||◌, ◌*◌, ◌/◌, ◌%◌, ◌^◌, List, [], ◌∷◌, ◌++◌, Bool, true, false, not, Option, none,
  some, is_some, length, ◌==◌, if◌then◌else◌, Result, ok, err,
}
use vproc.Prelude.Int.{ℤ}
use vproc.Prelude.Named.{◌==ˢ◌, Name, find, put}
use vproc.Prelude.Assoc.{insert}
use vproc.Coroutine.{VPid, elf_words}
use vproc.Executor.{Executor, spawn, spawn_elf, register_c_strings, register_mapped_region}
use vproc.Vfd.Share.{close_cloexec}
use vproc.Vfd.Tables.{FdTables, get_table, fork_fd_table}
use vproc.Elf.Format.{ElfError, Ehdr, Phdr, le}
use vproc.Elf.Headers.{parse_header, program_headers, interpreter_path, em_aarch64}
use vproc.Loader.{Memory, System, LoadError, write_word, copy_bytes}
use vproc.Loader.Load.{LoadedImage, load_pie, build_auxv}
use vproc.Vexec.Start.{extract_main_addr}
use vproc.Vexec.Segments.{
  read_bytes, read_word, clear_init_arrays, save_writable_segments, restore_writable_segments,
}
use vproc.Vexec.Got.{patch_got_for_loaded_binary}
use vproc.Vexec.Cache.{
  BinaryCacheEntry, Cache, Canonical, resolved, not_utf8, fails, track_binary_user,
}

-- 8 MiB.
abbrev pub elf_stack_size : ℕ
elf_stack_size = 8388608

pub record Platform {ℓ} (K : Type ℓ) : Type ℓ where
  pub read_file : Name → K → Option (List ℕ)
  pub canonicalize : Name → K → Canonical
  pub c_string : Name → K → ℕ × K  -- `into_raw` of a new C string
  pub dlopen : Name → Memory → K → ℕ × Memory × K  -- 0 is null
  pub dlsym_main : ℕ → K → ℕ  -- 0 is null
  pub dlclose : ℕ → K → K
  pub loaded_objects : K → List (Option Name × ℕ)  -- `dl_iterate_phdr`: the names and addresses
  pub page : ℕ  -- `sysconf(_SC_PAGESIZE)`
  pub map_guard : ℕ → K → Option ℕ × K  -- `mmap` of a size without access
  pub map_stack : ℕ → ℕ → K → Bool × K  -- `mmap` at an address, to read and write
  pub unmap : ℕ → ℕ → K → K
  pub coroutine_at : ℕ → ℕ → List ℕ → K → ℕ × K  -- entry, stack and its words
  pub coroutine_main : ℕ → List ℕ → K → (ℕ × ℕ) × K  -- its closure beside it
  pub close_fd : ℤ → K → K
  pub libc_exit : ℕ  -- `dlsym(RTLD_NEXT, "exit")`, 0 is null
  pub libc_execve : ℕ
  pub our_exit : ℕ  -- the addresses of the interceptors
  pub our_execve : ℕ
  pub interceptor : ℕ → Memory → Option ℕ
  pub hwcap : Option ℕ
  pub random : ℕ
  pub memory_calls : System

pub record Machine {ℓ} (K : Type ℓ) : Type ℓ where
  pub executor : Executor
  pub fds : FdTables
  pub memory : Memory
  pub cache : Cache
  pub next_base : ℕ
  pub hooked_exit : Bool  -- the two `DONE`
  pub hooked_execve : Bool
  pub kernel : K

pub data VexecError : Type 0 where
  cannot_read cannot_canonicalize invalid_path not_aarch64 is_dynamic : VexecError
  dlopen_fails no_base no_main stack_fails : VexecError
  elf_error : ElfError → VexecError
  load_error : LoadError → VexecError

-- `parse_header` and `program_headers`.
unfoldable pub read_headers : List ℕ → Result ElfError (Ehdr × List Phdr)
read_headers file = elim (parse_header file) [
  | err e ↦ err e
  | ok hdr ↦ elim (program_headers file hdr) [ err e ↦ err e | ok phdrs ↦ ok (hdr, phdrs) ]
]

-- `ldr x16, [pc, #8]` and `br x16`, in bytes.
abbrev pub ldr_x16 : List ℕ
ldr_x16 = 0x50 ∷ 0 ∷ 0 ∷ 0x58 ∷ []

abbrev pub br_x16 : List ℕ
br_x16 = 0 ∷ 0x02 ∷ 0x1f ∷ 0xd6 ∷ []

-- The target first, then the instructions. The second `mprotect` is only logged where it fails.
unfoldable pub write_inline_hook : System → ℕ → ℕ → Memory → Bool × Memory
write_inline_hook sys func_addr target memory =
    let page = func_addr - func_addr % 4096 in
    let with_target = write_word (func_addr + 8) target memory in
    let hooked = copy_bytes (func_addr + 4) br_x16 (copy_bytes func_addr ldr_x16 with_target) in
    if sys.mprotect_ok page 0x2000 7 then (true, hooked) else (false, memory)

-- The entry of the list with the name.
unfoldable pub base_of : Name → List (Option Name × ℕ) → Option ℕ
base_of search [] = none
base_of search ((none, addr) ∷ objects) = base_of search objects
base_of search ((some name, addr) ∷ objects) =
    if name ==ˢ search then some addr else base_of search objects

module _ {ℓ} {K : Type ℓ} (p : Platform K) where
  -- `hook_libc_exit` and `hook_libc_execve`, each of which does its work once.
  unfoldable pub hook_libc_exit : Machine K → Machine K
  hook_libc_exit m =
      let (done, memory) = write_inline_hook p.memory_calls p.libc_exit p.our_exit m.memory in
      record m {
        hooked_exit = true;
        memory = if m.hooked_exit || (p.libc_exit == 0) then m.memory else memory;
      }

  unfoldable pub hook_libc_execve : Machine K → Machine K
  hook_libc_execve m =
      let (done, memory) = write_inline_hook p.memory_calls p.libc_execve p.our_execve m.memory in
      record m {
        hooked_execve = true;
        memory = if m.hooked_execve || (p.libc_execve == 0) then m.memory else memory;
      }

  unfoldable pub find_loaded_base : Name → K → Option ℕ
  unfolding base_of
  find_loaded_base path k =
      let real_path : Name = elim (p.canonicalize path k) [
        | resolved real_path ↦ real_path
        | other ↦ path
      ] in
      base_of real_path (p.loaded_objects k)

  -- The start of the stack above its guard page, 0 where it fails.
  unfoldable pub alloc_elf_stack : ℕ → K → ℕ × K
  alloc_elf_stack size k =
      let total = p.page + size in
      let (mapped, k1) = p.map_guard total k in
      elim mapped [
        | none ↦ (0, k1)
        | some base ↦
            let (done, k2) = p.map_stack (base + p.page) size k1 in
            if done then (base + p.page, k2) else (0, p.unmap base total k2)
      ]

  unfoldable pub free_elf_stack : ℕ → ℕ → K → K
  free_elf_stack ptr size k = p.unmap (ptr - p.page) (p.page + size) k

  unfoldable pub build_c_strings : List Name → K → List ℕ × K
  build_c_strings [] k = ([], k)
  build_c_strings (s ∷ strings) k =
      let (ptr, k') = p.c_string s k in
      let (ptrs, end) = build_c_strings strings k' in (ptr ∷ ptrs, end)

  -- `real_close` for each of the descriptors.
  unfoldable pub close_each : List ℤ → K → K
  close_each [] k = k
  close_each (fd ∷ fds) k = close_each fds (p.close_fd fd k)

  -- `fork_fd_table` from the running process, and `close_cloexec`.
  unfoldable pub inherit_fds : Option VPid → VPid → FdTables → K → FdTables × K
  inherit_fds current vpid fds k =
      let forked : FdTables = elim current [ none ↦ fds | some pid ↦ fork_fd_table fds pid vpid ] in
      elim (get_table forked vpid) [
        | none ↦ (forked, k)
        | some child_table ↦
            let (real_fds, child_table') = close_cloexec child_table in
            (
              record forked { tables = insert vpid child_table' forked.tables },
              close_each real_fds k,
            )
      ]

  -- The stack, the coroutine at the entry point, and what the new process inherits: the end of both
  -- branches of `virtual_execve_via_entry`.
  unfoldable pub start_at_entry :
      Name → List ℕ → List ℕ → ℕ → Ehdr → Machine K → Result VexecError VPid × Machine K
  start_at_entry real_path argv envp base hdr m =
      let entry_addr = (base + hdr.e_entry) % 2 ^ 64 in
      let image : LoadedImage = record {
        base = base;
        total_size = 0;
        entry = entry_addr;
        phdr_addr = (base + hdr.e_phoff) % 2 ^ 64;
        phnum = hdr.e_phnum;
        phentsize = hdr.e_phentsize;
        interp_path = none;
      } in
      let auxv = build_auxv image 0 p.hwcap p.random in
      let (stack_base, k) = alloc_elf_stack elf_stack_size m.kernel in
      let (co, k') =
        p.coroutine_at entry_addr stack_base (elf_words (length argv) argv envp auxv) k in
      let (vpid, spawned) = spawn_elf m.executor co stack_base elf_stack_size in
      let registered = register_c_strings spawned vpid (argv ++ envp) in
      let (tracked, cache) = track_binary_user vpid real_path registered m.cache in
      let (fds, k'') = inherit_fds m.executor.current vpid m.fds k' in
      if stack_base == 0
      then (err stack_fails, record m { kernel = k })
      else (ok vpid, record m { executor = tracked; fds = fds; cache = cache; kernel = k'' })
