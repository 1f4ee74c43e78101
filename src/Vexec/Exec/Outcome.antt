-- ===== src/Vexec/Exec/Outcome.antt =====
-- What starting a program leaves behind, in every case.
use vproc.Prelude.{
  ℕ, ◌≡◌, ◌≢◌, refl, List, [], ◌∷◌, ◌++◌, true, Option, none, some, is_some, ◌==◌, arith, Result,
  ok, err,
}
use mathlib.Core.Path.{subst}
use vproc.Prelude.Branches.{of_if, of_option, of_result}
use vproc.Prelude.Named.{Name, find}
use vproc.Prelude.Assoc.{lookup, modify, lookup-insert, lookup-modify}
use vproc.Coroutine
use vproc.Coroutine.{VPid, Coroutine}
use vproc.Executor.{Executor, spawn, spawn_elf, register_c_strings, register_mapped_region}
use vproc.Vfd.Tables.{FdTables}
use vproc.Elf.Format.{Ehdr}
use vproc.Elf.Headers.{parse_header, program_headers, interpreter_path, em_aarch64}
use vproc.Loader.Load.{load_pie}
use vproc.Vexec.Cache.{Canonical, resolved, not_utf8, fails, BinaryCacheEntry, track_binary_user}
use vproc.Vexec.Exec.{
  Platform, Machine, VexecError, load_error, build_c_strings, alloc_elf_stack, elf_stack_size,
  find_loaded_base, hook_libc_exit, hook_libc_execve, start_at_entry, read_headers,
}
use vproc.Vexec.Exec.Entry.{start_cached, start_first, prepare, via_canonical}
use vproc.Vexec.Exec.Whole.{
  virtual_execve_dynamic, start_static, virtual_execve_static, fall_back, by_interp, virtual_execve,
}

-- The process `vpid` is new: it has the next number and stands at the end of the ready queue, and no
-- other process is changed.
pub record Adds (vpid : VPid) (ex ex' : Executor) : Type 0 where
  pub is_next : vpid ≡ ex.next_pid
  pub is_there : is_some (lookup vpid ex'.vprocs) ≡ true
  pub is_queued : ex'.ready_queue ≡ ex.ready_queue ++ vpid ∷ []
  pub same_current : ex'.current ≡ ex.current
  pub same_codes : ex'.exit_codes ≡ ex.exit_codes
  pub others : (other : VPid) → other ≢ vpid → lookup other ex'.vprocs ≡ lookup other ex.vprocs

-- An error leaves the executor and the descriptor tables as they are.
abbrev pub Outcome {ℓ} :
    {K : Type ℓ} → Executor → FdTables → Result VexecError VPid × Machine K → Type 0
Outcome ex fds (err e, m) = (m.executor ≡ ex) × (m.fds ≡ fds)
Outcome ex fds (ok vpid, m) = Adds vpid ex m.executor

spawn_elf-Adds :
    (ex : Executor) (co stack_base stack_size : ℕ)
    → let (vpid, ex') = spawn_elf ex co stack_base stack_size in Adds vpid ex ex'
unfolding spawn_elf
spawn_elf-Adds ex co stack_base stack_size =
    let made = Coroutine.new_elf ex.next_pid co stack_base stack_size in
    record {
      is_next = refl;
      is_there = ground (arith, lookup-insert ex.next_pid ex.next_pid made ex.vprocs);
      is_queued = refl;
      same_current = refl;
      same_codes = refl;
      others =
          λ other differ. ground (arith, differ, lookup-insert ex.next_pid other made ex.vprocs);
    }

spawn-Adds :
    (ex : Executor) (co closure : ℕ) → let (vpid, ex') = spawn ex co closure in Adds vpid ex ex'
unfolding spawn
spawn-Adds ex co closure =
    let made = Coroutine.new ex.next_pid co closure in
    record {
      is_next = refl;
      is_there = ground (arith, lookup-insert ex.next_pid ex.next_pid made ex.vprocs);
      is_queued = refl;
      same_current = refl;
      same_codes = refl;
      others =
          λ other differ. ground (arith, differ, lookup-insert ex.next_pid other made ex.vprocs);
    }

-- A change of the new process alone.
modify-Adds :
    (vpid : VPid) (ex ex' : Executor) (f : Coroutine → Coroutine)
    → Adds vpid ex ex'
    → Adds vpid ex (record ex' { vprocs = modify vpid f ex'.vprocs })
modify-Adds vpid ex ex' f adds = record {
  is_next = adds.is_next;
  is_there = ground (arith, adds.is_there, lookup-modify vpid vpid f ex'.vprocs);
  is_queued = adds.is_queued;
  same_current = adds.same_current;
  same_codes = adds.same_codes;
  others = λ other differ.
      ground (arith, differ, adds.others other differ, lookup-modify vpid other f ex'.vprocs);
}

module _ {ℓ} {K : Type ℓ} (p : Platform K) where
  start_at_entry-Outcome :
      (real_path : Name) (argv envp : List ℕ) (base : ℕ) (hdr : Ehdr) (m : Machine K)
      → Outcome m.executor m.fds (start_at_entry p real_path argv envp base hdr m)
  unfolding start_at_entry register_c_strings track_binary_user
  start_at_entry-Outcome real_path argv envp base hdr m =
      of_if (Outcome m.executor m.fds) ((alloc_elf_stack p elf_stack_size m.kernel).0 == 0) _ _
        (refl, refl)
        (modify-Adds _ m.executor _ _
          (modify-Adds _ m.executor _ _ (spawn_elf-Adds m.executor _ _ _)))

  start_cached-Outcome :
      (path real_path : Name) (argv envp : List ℕ) (entry : BinaryCacheEntry) (m : Machine K)
      → Outcome m.executor m.fds (start_cached p path real_path argv envp entry m)
  unfolding start_cached
  start_cached-Outcome path real_path argv envp entry m =
      of_option (Outcome m.executor m.fds) (p.read_file real_path m.kernel) _ _ (refl, refl)
        (λ file.
          of_result (Outcome m.executor m.fds) (read_headers file) _ _ (λ e. (refl, refl))
            (λ headers.
              of_option (Outcome m.executor m.fds) (find_loaded_base p path m.kernel) _ _
                (refl, refl) (λ base. start_at_entry-Outcome real_path argv envp base headers.0 _)))

  start_first-Outcome :
      (path real_path : Name) (argv envp : List ℕ) (m : Machine K)
      → Outcome m.executor m.fds (start_first p path real_path argv envp m)
  unfolding start_first prepare hook_libc_exit hook_libc_execve
  start_first-Outcome path real_path argv envp m =
      of_option (Outcome m.executor m.fds) (p.read_file real_path m.kernel) _ _ (refl, refl)
        (λ file.
          of_result (Outcome m.executor m.fds) (read_headers file) _ _ (λ e. (refl, refl))
            (λ headers.
              of_if (Outcome m.executor m.fds) ((p.dlopen real_path m.memory m.kernel).0 == 0) _ _
                (refl, refl)
                (of_option (Outcome m.executor m.fds)
                  (find_loaded_base p path (p.dlopen real_path m.memory m.kernel).2) _ _
                  (refl, refl)
                  (λ base. start_at_entry-Outcome real_path argv envp base headers.0 _))))

  via_canonical-Outcome :
      (path : Name) (argv envp : List Name) (m : Machine K) (canonical : Canonical)
      → Outcome m.executor m.fds (via_canonical p path argv envp m canonical)
  unfolding via_canonical
  via_canonical-Outcome path argv envp m fails = (refl, refl)
  via_canonical-Outcome path argv envp m not_utf8 = (refl, refl)
  via_canonical-Outcome path argv envp m (resolved real_path) =
      of_option (Outcome m.executor m.fds) (find real_path m.cache) _ _
        (start_first-Outcome path real_path _ _ _)
        (λ entry. start_cached-Outcome path real_path _ _ entry _)

  dynamic-Outcome :
      (path : Name) (argv envp : List Name) (m : Machine K)
      → Outcome m.executor m.fds (virtual_execve_dynamic p path argv envp m)
  unfolding virtual_execve_dynamic register_c_strings
  dynamic-Outcome path argv envp m =
      of_if (Outcome m.executor m.fds) ((p.dlopen path m.memory m.kernel).0 == 0) _ _ (refl, refl)
        (of_if (Outcome m.executor m.fds) (p.dlsym_main (p.dlopen path m.memory m.kernel).0 _ == 0)
          _ _ (refl, refl) (modify-Adds _ m.executor _ _ (spawn-Adds m.executor _ _)))

  start_static-Outcome :
      (file : List ℕ) (argv envp : List Name) (m : Machine K)
      → Outcome m.executor m.fds (start_static p file argv envp m)
  unfolding start_static register_c_strings register_mapped_region
  start_static-Outcome file argv envp m =
      let (argv_c, k) = build_c_strings p argv m.kernel in
      let (envp_c, k1) = build_c_strings p envp k in
      let (stack_base, k2) = alloc_elf_stack p elf_stack_size k1 in
      let (loaded, next_base) = load_pie p.memory_calls file m.next_base m.memory in
      of_result (Outcome m.executor m.fds) loaded
        (λ e. (err (load_error e), record m { next_base = next_base })) _ (λ e. (refl, refl))
        (λ loaded.
          of_if (Outcome m.executor m.fds) (stack_base == 0) _ _ (refl, refl)
            (modify-Adds _ m.executor _ _
              (modify-Adds _ m.executor _ _ (spawn_elf-Adds m.executor _ _ _))))

  static-Outcome :
      (path : Name) (argv envp : List Name) (m : Machine K)
      → Outcome m.executor m.fds (virtual_execve_static p path argv envp m)
  unfolding virtual_execve_static
  static-Outcome path argv envp m =
      let P = Outcome m.executor m.fds in
      of_option P (p.read_file path m.kernel) _ _ (refl, refl)
        (λ file.
          of_result P (parse_header file) _ _ (λ e. (refl, refl))
            (λ hdr.
              of_if P (hdr.e_machine == em_aarch64) _ _
                (of_result P (program_headers file hdr) _ _ (λ e. (refl, refl))
                  (λ phdrs.
                    of_result P (interpreter_path file phdrs) _ _ (λ e. (refl, refl))
                      (λ interp.
                        of_if P (is_some interp) _ _ (refl, refl)
                          (start_static-Outcome file argv envp m))))
                (refl, refl)))

  -- After the attempt through the entry point: what it gives, or the attempt through `main`.
  fall_back-Outcome :
      (ex : Executor) (fds : FdTables) (path : Name) (argv envp : List Name)
      (attempt : Result VexecError VPid × Machine K)
      → Outcome ex fds attempt
      → Outcome ex fds (fall_back p path argv envp attempt)
  unfolding fall_back
  fall_back-Outcome ex fds path argv envp (ok vpid, m) adds = adds
  fall_back-Outcome ex fds path argv envp (err e, m) (same_ex, same_fds) =
      subst (λ x. Outcome x fds (virtual_execve_dynamic p path argv envp m)) same_ex
        (subst (λ x. Outcome m.executor x (virtual_execve_dynamic p path argv envp m)) same_fds
          (dynamic-Outcome path argv envp m))

  by_interp-Outcome :
      (path : Name) (argv envp : List Name) (m : Machine K) (interp : Option (List ℕ))
      → Outcome m.executor m.fds (by_interp p path argv envp m interp)
  unfolding by_interp
  by_interp-Outcome path argv envp m none = static-Outcome path argv envp m
  by_interp-Outcome path argv envp m (some interp) =
      fall_back-Outcome m.executor m.fds path argv envp _
        (via_canonical-Outcome path argv envp m (p.canonicalize path m.kernel))

  -- `virtual_execve` either fails and leaves the executor and all descriptor tables as they were,
  -- whichever of its steps it is that fails, or starts exactly one process: that has the next number
  -- and the last place in the ready queue, and no other process is changed.
  pub virtual_execve-Outcome :
      (path : Name) (argv envp : List Name) (m : Machine K)
      → Outcome m.executor m.fds (virtual_execve p path argv envp m)
  unfolding virtual_execve
  virtual_execve-Outcome path argv envp m =
      let P = Outcome m.executor m.fds in
      of_option P (p.read_file path m.kernel) _ _ (refl, refl)
        (λ file.
          of_result P (read_headers file) _ _ (λ e. (refl, refl))
            (λ headers.
              of_result P (interpreter_path file headers.1) _ _ (λ e. (refl, refl))
                (λ interp. by_interp-Outcome path argv envp m interp)))
