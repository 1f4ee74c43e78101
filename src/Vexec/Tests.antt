-- ===== src/Vexec/Tests.antt =====
-- The theorems on src/vexec.rs at concrete instructions, memories and programs.
use vproc.Prelude.{
  ℕ, ◌+◌, ◌*◌, ◌-◌, ◌/◌, ◌%◌, ◌^◌, ◌<◌, ◌≤◌, ◌≡◌, ◌↔◌, ◌⊎◌, refl, List, [], ◌∷◌, ◌++◌, true, false,
  none, some, if◌then◌else◌, replicate, ◌==◌, ok, is_some, arith,
}
use vproc.Prelude.Named.{Name, ◌==ˢ◌}
use vproc.Executor
use vproc.Coroutine
use vproc.Elf.Format.{Phdr, read_at, decode_ehdr, le, decode_phdr}
use vproc.Elf.Headers.{
  parse_header, check_header, has_magic, program_headers, interpreter_path, validate_pie,
}
use vproc.Elf.Dynamic.{dynamic_entries}
use vproc.Loader.Load.{load_pie}
use vproc.Preload.Process.{waitpid_round}
use vproc.Preload.Execve.{Caller, ends, execve}
use vproc.Preload.Execve.Zero.{execve_ends}
use vproc.Prelude.Int.{pos}
use vproc.Prelude.Assoc.{lookup}
use vproc.Loader.{Memory, System, in_range}
use vproc.Vexec.Start.{
  immediate, decode_adrp, is_ldr_x2, is_adrp, is_add, main_at, find_add, search_back, search_from,
  sign_extended, extract_main_addr,
}
use vproc.Vexec.Start.Page.{adrp_target, decode_adrp_iff}
use vproc.Vexec.Start.Found.{Loads, extract_main_addr_lem}
use vproc.Vexec.Segments.{
  save_writable_segments, restore_writable_segments, clear_init_arrays, read_word,
}
use vproc.Vexec.Segments.Snapshot.{is_program_data, restore-save}
use vproc.Vexec.Segments.Initialisers.{cleared, clear_init_arrays_lem}
use vproc.Vexec.Cache.{BinaryCacheEntry, resolved}
use vproc.Vexec.Exec.{Platform, Machine, read_headers, alloc_elf_stack}
use vproc.Vexec.Exec.Whole.{virtual_execve, by_interp, virtual_execve_static, start_static}
use vproc.Vexec.Exec.Outcome.{Outcome, virtual_execve-Outcome}

-- ADRP x3 of the next page, and of the page 2^19 pages on.
abbrev near : ℕ
near = 0xb0000003

abbrev far : ℕ
far = 0x90400003

near_page : decode_adrp 65540 near ≡ 69632
unfolding decode_adrp immediate sign_extended
near_page = refl

-- A page 2 GiB on is taken for the page 2 GiB back.
far_page :
    (adrp_target (2 ^ 32) far ≡ 2 ^ 32 + 2 ^ 31) × (decode_adrp (2 ^ 32) far ≡ 2 ^ 32 - 2 ^ 31)
unfolding decode_adrp adrp_target immediate sign_extended
far_page = (refl, refl)

decode_adrp_iff_example :
    (decode_adrp 65540 near ≡ adrp_target 65540 near)
    ↔ ((immediate near < 2 ^ 19) ⊎ (2 ^ 21 - 2 ^ 19 ≤ immediate near))
decode_adrp_iff_example = decode_adrp_iff 65540 near

-- ADRP x3, and then LDR x2, [x3, #8].
abbrev start_code : ℕ → ℕ
start_code i = if i == 0 then near else (if i == 1 then 0xf9400462 else 0)

abbrev words : ℕ → ℕ
words addr = if addr == 69640 then 4096 else 0

start_main : extract_main_addr start_code words 65536 ≡ some 4096
unfolding extract_main_addr search_from search_back main_at find_add is_ldr_x2 is_adrp is_add
    decode_adrp immediate sign_extended
start_main = refl

extract_main_addr_lem_example : (i : ℕ) × (j : ℕ) × (i < 48) × Loads start_code words 65536 i j 4096
extract_main_addr_lem_example = extract_main_addr_lem start_code words 65536 4096 start_main

abbrev data_segment : Phdr
data_segment = record {
  p_type = 1;
  p_flags = 6;
  p_offset = 0;
  p_vaddr = 16;
  p_paddr = 16;
  p_filesz = 4;
  p_memsz = 4;
  p_align = 4096;
}

abbrev granting : System
granting = record { mmap_ok = λ addr size. true; mprotect_ok = λ addr size prot. true }

abbrev sevens : Memory
sevens addr = 7

abbrev nines : Memory
nines addr = 9

restore-save_example :
    let segments = save_writable_segments 4096 (data_segment ∷ []) sevens in
    (restore_writable_segments granting segments nines).0 4113
    ≡ (if is_program_data 4096 (data_segment ∷ []) 4113 then 7 else 9)
restore-save_example =
    restore-save granting 4096 (data_segment ∷ []) sevens nines 4113 (λ start size. refl)

-- Three entries of the dynamic table at 4096, the second for the initialisers at 512; its header is the
-- second of the program.
abbrev dynamic : Memory
dynamic addr = if addr == 4112 then 25 else (if addr == 4121 then 2 else 0)

abbrev dynamic_segment : Phdr
dynamic_segment = record data_segment { p_type = 2; p_vaddr = 0; p_memsz = 48 }

clear_init_arrays_lem_example :
    let start = (4096 + 0) % 2 ^ 64 in
    let m' = clear_init_arrays 4096 (data_segment ∷ dynamic_segment ∷ []) dynamic in
    ((i : ℕ)
      → i < 48 / 16
      → let entry = start + i * 16 in
        (read_word entry m' ≡ read_word entry dynamic)
        × (read_word (entry + 8) m'
            ≡ cleared (read_word entry dynamic) (read_word (entry + 8) dynamic)))
    × ((at : ℕ) → in_range start (48 / 16 * 16) at ≡ false → m' at ≡ dynamic at)
clear_init_arrays_lem_example =
    clear_init_arrays_lem 4096 (data_segment ∷ []) [] dynamic_segment dynamic (refl, tt) refl

abbrev tool : Name
tool = 47 ∷ 116 ∷ []

-- A binary with two users.
abbrev loaded : BinaryCacheEntry
loaded = record { main_addr = 4096; handle = 77; saved_writable = []; active_users = 2 }

-- A header with one program header, of a segment of eight zero bytes at address 0.
abbrev tiny : List ℕ
tiny =
    0x7f
    ∷ 69
    ∷ 76
    ∷ 70
    ∷ 2
    ∷ 1
    ∷ (replicate 10 0
        ++ 3
          ∷ 0
          ∷ 183
          ∷ 0
          ∷ (replicate 12 0
              ++ 64
                ∷ (replicate 21 0
                    ++ 56
                      ∷ 0
                      ∷ 1
                      ∷ (replicate 7 0
                          ++ 1 ∷ 0 ∷ 0 ∷ 0 ∷ 6 ∷ (replicate 35 0 ++ 8 ∷ replicate 15 0)))))

-- The kernel's state counts what it has handed out.
abbrev platform : Platform ℕ
platform = record {
  read_file = λ path k. if path ==ˢ tool then some tiny else none;
  canonicalize = λ path k. resolved path;
  c_string = λ s k. (k, k + 1);
  dlopen = λ path memory k. (k, memory, k + 1);
  dlsym_main = λ handle k. 0;
  dlclose = λ handle k. k;
  loaded_objects = λ k. (some tool, 131072) ∷ [];
  page = 4096;
  map_guard = λ size k. (some 65536, k);
  map_stack = λ start size k. (true, k);
  unmap = λ start size k. k;
  coroutine_at = λ entry stack words k. (k, k + 1);
  coroutine_main = λ main argv k. ((k, 5), k + 1);
  close_fd = λ fd k. k;
  libc_exit = 0;
  libc_execve = 0;
  our_exit = 8192;
  our_execve = 12288;
  interceptor = λ name memory. none;
  hwcap = none;
  random = 4096;
  memory_calls = granting;
}

abbrev machine : Machine ℕ
machine = record {
  executor = Executor.new;
  fds = record { tables = []; pipes = [] };
  memory = nines;
  cache = [];
  next_base = 131072;
  hooked_exit = false;
  hooked_execve = false;
  kernel = 1;
}

virtual_execve-Outcome_example :
    Outcome machine.executor machine.fds (virtual_execve platform tool (tool ∷ []) [] machine)
virtual_execve-Outcome_example = virtual_execve-Outcome platform tool (tool ∷ []) [] machine

-- Process 7 runs.
abbrev shell : Machine ℕ
shell = record machine {
  executor = record Executor.new {
    vprocs = (7, Coroutine.new 7 1 0) ∷ [];
    current = some 7;
    next_pid = 8;
  };
}

started : (virtual_execve platform tool (tool ∷ []) [] shell).0 ≡ ok 8
unfolding virtual_execve by_interp virtual_execve_static start_static ◌==ˢ◌ read_headers
    parse_header read_at check_header has_magic decode_ehdr le program_headers interpreter_path
    decode_phdr load_pie validate_pie dynamic_entries alloc_elf_stack Executor.spawn_elf
started = refl

abbrev caller : Caller ℕ
caller = record { machine = shell; call_count = 0; real_fork_child = false }

execve_ends_example :
    let before = shell.executor in
    let (turn, after) = execve platform (λ k. (pos 5, k)) true true tool (tool ∷ []) [] caller in
    (turn ≡ ends)
    × (waitpid_round after.machine.executor (pos 7) ≡ some (pos 7, some 0))
    × (after.machine.executor.ready_queue ≡ before.ready_queue ++ 8 ∷ [])
    × (is_some (lookup 8 after.machine.executor.vprocs) ≡ true)
execve_ends_example =
    execve_ends platform (λ k. (pos 5, k)) tool (tool ∷ []) [] caller 7 8 refl refl (omega arith)
      started
