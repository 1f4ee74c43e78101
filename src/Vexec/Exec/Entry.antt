-- ===== src/Vexec/Exec/Entry.antt =====
-- `virtual_execve_via_entry` of src/vexec.rs.
use vproc.Prelude.{ℕ, ◌+◌, ◌*◌, ◌%◌, ◌^◌, List, none, some, ◌==◌, if◌then◌else◌, Result, ok, err}
use vproc.Prelude.Named.{Name, find, put}
use vproc.Coroutine.{VPid}
use vproc.Elf.Format.{Ehdr, Phdr, le}
use vproc.Loader.{Memory}
use vproc.Vexec.Start.{extract_main_addr}
use vproc.Vexec.Segments.{
  read_bytes, read_word, clear_init_arrays, save_writable_segments, restore_writable_segments,
}
use vproc.Vexec.Got.{patch_got_for_loaded_binary}
use vproc.Vexec.Cache.{Canonical, BinaryCacheEntry, resolved, not_utf8, fails}
use vproc.Vexec.Exec.{
  Platform, Machine, VexecError, cannot_read, cannot_canonicalize, invalid_path, dlopen_fails,
  no_base, elf_error, read_headers, build_c_strings, start_at_entry, find_loaded_base,
  hook_libc_exit, hook_libc_execve,
}

module _ {ℓ} {K : Type ℓ} (p : Platform K) where
  -- A binary of the cache.
  unfoldable pub start_cached :
      Name
      → Name
      → List ℕ
      → List ℕ
      → BinaryCacheEntry
      → Machine K
      → Result VexecError VPid × Machine K
  start_cached path real_path argv envp entry m =
      let (restored, calls) =
        restore_writable_segments p.memory_calls entry.saved_writable m.memory in
      let m' : Machine K = record m { memory = restored } in
      elim (p.read_file real_path m.kernel) [
        | none ↦ (err cannot_read, m')
        | some file ↦ elim (read_headers file) [
          | err e ↦ (err (elf_error e), m')
          | ok (hdr, phdrs) ↦ elim (find_loaded_base p path m.kernel) [
            | none ↦ (err no_base, m')
            | some base ↦
                let (patched, got_calls) =
                  patch_got_for_loaded_binary p.interceptor base phdrs restored in
                start_at_entry p real_path argv envp base hdr (record m { memory = patched })
          ]
        ]
      ]

  -- The instructions of `_start` in memory.
  abbrev pub code_at : ℕ → Memory → ℕ → ℕ
  code_at entry_addr memory i = le (read_bytes (entry_addr + i * 4) 4 memory)

  -- `dlsym` first, then the instructions; 0 where neither finds it.
  unfoldable pub main_addr_of : ℕ → ℕ → Machine K → ℕ
  main_addr_of handle entry_addr m =
      let main_sym = p.dlsym_main handle m.kernel in
      let extracted : ℕ =
        elim (extract_main_addr (code_at entry_addr m.memory) (λ a. read_word a m.memory)
          entry_addr) [ none ↦ 0 | some addr ↦ addr ] in
      if main_sym == 0 then extracted else main_sym

  -- The loaded binary is prepared, and goes into the cache.
  unfoldable pub prepare : Name → ℕ → ℕ → Ehdr → List Phdr → Machine K → Machine K
  prepare real_path handle base hdr phdrs m =
      let cleared : Machine K = record m { memory = clear_init_arrays base phdrs m.memory } in
      let hooked = hook_libc_execve p (hook_libc_exit p cleared) in
      let (patched, calls) = patch_got_for_loaded_binary p.interceptor base phdrs hooked.memory in
      let entry : BinaryCacheEntry = record {
        main_addr = main_addr_of handle ((base + hdr.e_entry) % 2 ^ 64) m;
        handle = handle;
        saved_writable = save_writable_segments base phdrs patched;
        active_users = 0;
      } in
      record hooked { memory = patched; cache = put real_path entry hooked.cache }

  -- A binary that is not in the cache. The guard closes the handle where the base is not found.
  unfoldable pub start_first :
      Name → Name → List ℕ → List ℕ → Machine K → Result VexecError VPid × Machine K
  start_first path real_path argv envp m = elim (p.read_file real_path m.kernel) [
    | none ↦ (err cannot_read, m)
    | some file ↦ elim (read_headers file) [
      | err e ↦ (err (elf_error e), m)
      | ok (hdr, phdrs) ↦
          let (handle, memory, k) = p.dlopen real_path m.memory m.kernel in
          let m' : Machine K = record m { memory = memory; kernel = k } in
          let loaded : Result VexecError VPid × Machine K = elim (find_loaded_base p path k) [
            | none ↦ (err no_base, record m' { kernel = p.dlclose handle k })
            | some base ↦
                start_at_entry p real_path argv envp base hdr
                  (prepare real_path handle base hdr phdrs m')
          ] in
          if handle == 0 then (err dlopen_fails, m') else loaded
    ]
  ]

  -- After `canonicalize`.
  unfoldable pub via_canonical :
      Name → List Name → List Name → Machine K → Canonical → Result VexecError VPid × Machine K
  via_canonical path argv envp m fails = (err cannot_canonicalize, m)
  via_canonical path argv envp m not_utf8 = (err invalid_path, m)
  via_canonical path argv envp m (resolved real_path) =
      let (argv_c, k) = build_c_strings p argv m.kernel in
      let (envp_c, k') = build_c_strings p envp k in
      let m' : Machine K = record m { kernel = k' } in
      elim (find real_path m.cache) [
        | some entry ↦ start_cached path real_path argv_c envp_c entry m'
        | none ↦ start_first path real_path argv_c envp_c m'
      ]

  unfoldable pub virtual_execve_via_entry :
      Name → List Name → List Name → Machine K → Result VexecError VPid × Machine K
  unfolding via_canonical
  virtual_execve_via_entry path argv envp m =
      via_canonical path argv envp m (p.canonicalize path m.kernel)
