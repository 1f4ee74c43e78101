-- ===== src/Vexec/Exec/Whole.antt =====
-- `virtual_execve_dynamic`, `virtual_execve_static` and `virtual_execve` of src/vexec.rs.
use vproc.Prelude.{
  ℕ, List, ◌++◌, Option, none, some, is_some, length, ◌==◌, if◌then◌else◌, Result, ok, err,
}
use vproc.Prelude.Named.{Name}
use vproc.Coroutine.{VPid, elf_words}
use vproc.Executor.{spawn, spawn_elf, register_c_strings, register_mapped_region}
use vproc.Elf.Headers.{parse_header, program_headers, interpreter_path, em_aarch64}
use vproc.Loader.Load.{load_pie, build_auxv}
use vproc.Vexec.Exec.{
  Platform, Machine, VexecError, cannot_read, not_aarch64, is_dynamic, dlopen_fails, no_main,
  stack_fails, elf_error, load_error, elf_stack_size, read_headers, build_c_strings,
  alloc_elf_stack,
}
use vproc.Vexec.Exec.Entry.{virtual_execve_via_entry}

module _ {ℓ} {K : Type ℓ} (p : Platform K) where
  unfoldable pub virtual_execve_dynamic :
      Name → List Name → List Name → Machine K → Result VexecError VPid × Machine K
  virtual_execve_dynamic path argv envp m =
      let (handle, memory, k) = p.dlopen path m.memory m.kernel in
      let m' : Machine K = record m { memory = memory; kernel = k } in
      let main_sym = p.dlsym_main handle k in
      let (argv_c, k1) = build_c_strings p argv k in
      let (envp_c, k2) = build_c_strings p envp k1 in
      let ((co, closure), k3) = p.coroutine_main main_sym argv_c k2 in
      let (vpid, spawned) = spawn m.executor co closure in
      let registered = register_c_strings spawned vpid (argv_c ++ envp_c) in
      if handle == 0
      then (err dlopen_fails, m')
      else (if main_sym == 0
          then (err no_main, record m' { kernel = p.dlclose handle k })
          else (ok vpid, record m' { executor = registered; kernel = k3 }))

  -- After the checks of `virtual_execve_static`.
  unfoldable pub start_static :
      List ℕ → List Name → List Name → Machine K → Result VexecError VPid × Machine K
  start_static file argv envp m =
      let (loaded, next_base) = load_pie p.memory_calls file m.next_base m.memory in
      elim loaded [
        | err e ↦ (err (load_error e), record m { next_base = next_base })
        | ok (image, memory) ↦
            let (argv_c, k) = build_c_strings p argv m.kernel in
            let (envp_c, k1) = build_c_strings p envp k in
            let auxv = build_auxv image 0 p.hwcap p.random in
            let (stack_base, k2) = alloc_elf_stack p elf_stack_size k1 in
            let words = elf_words (length argv_c) argv_c envp_c auxv in
            let (co, k3) = p.coroutine_at image.entry stack_base words k2 in
            let (vpid, spawned) = spawn_elf m.executor co stack_base elf_stack_size in
            let registered = register_c_strings spawned vpid (argv_c ++ envp_c) in
            let mapped = register_mapped_region registered vpid image.base image.total_size in
            let m' : Machine K = record m { memory = memory; next_base = next_base } in
            if stack_base == 0
            then (err stack_fails, record m' { kernel = k2 })
            else (ok vpid, record m' { executor = mapped; kernel = k3 })
      ]

  unfoldable pub virtual_execve_static :
      Name → List Name → List Name → Machine K → Result VexecError VPid × Machine K
  virtual_execve_static path argv envp m = elim (p.read_file path m.kernel) [
    | none ↦ (err cannot_read, m)
    | some file ↦ elim (parse_header file) [
      | err e ↦ (err (elf_error e), m)
      | ok hdr ↦
          let checked : Result VexecError VPid × Machine K = elim (program_headers file hdr) [
            | err e ↦ (err (elf_error e), m)
            | ok phdrs ↦ elim (interpreter_path file phdrs) [
              | err e ↦ (err (elf_error e), m)
              | ok interp ↦
                  if is_some interp then (err is_dynamic, m) else start_static file argv envp m
            ]
          ] in
          if hdr.e_machine == em_aarch64 then checked else (err not_aarch64, m)
    ]
  ]

  -- Where the entry point fails, `main` is tried.
  unfoldable pub fall_back :
      Name
      → List Name
      → List Name
      → Result VexecError VPid × Machine K
      → Result VexecError VPid × Machine K
  fall_back path argv envp (ok vpid, m) = (ok vpid, m)
  fall_back path argv envp (err e, m) = virtual_execve_dynamic path argv envp m

  -- The two arms of `if has_interp`.
  unfoldable pub by_interp :
      Name
      → List Name
      → List Name
      → Machine K
      → Option (List ℕ)
      → Result VexecError VPid × Machine K
  unfolding virtual_execve_via_entry
  by_interp path argv envp m none = virtual_execve_static path argv envp m
  by_interp path argv envp m (some interp) =
      fall_back path argv envp (virtual_execve_via_entry p path argv envp m)

  unfoldable pub virtual_execve :
      Name → List Name → List Name → Machine K → Result VexecError VPid × Machine K
  virtual_execve path argv envp m = elim (p.read_file path m.kernel) [
    | none ↦ (err cannot_read, m)
    | some file ↦ elim (read_headers file) [
      | err e ↦ (err (elf_error e), m)
      | ok (hdr, phdrs) ↦ elim (interpreter_path file phdrs) [
        | err e ↦ (err (elf_error e), m)
        | ok interp ↦ by_interp path argv envp m interp
      ]
    ]
  ]
