-- ===== src/Coroutine.antt =====
-- src/coroutine.rs: the record of a virtual process. minicoro is not modelled: `co` is the number of
-- an `mco_coro`, and what a resumed coroutine does is a parameter of the definitions that resume.
-- A closure, a C string and a stack are known by number too.
pub mod Layout
mod Tests
use vproc.Prelude.{
  ℕ, ◌*◌, ◌-◌, ◌+◌, ◌%◌, List, [], ◌∷◌, Bool, true, false, Option, none, some, length, map, ◌++◌,
  if◌then◌else◌,
}
use vproc.Prelude.Int.{ℤ, pos}

abbrev pub VPid : Type 0
VPid = ℕ

-- The awaited descriptors with their poll events, and a deadline in milliseconds.
pub record IoWait : Type 0 where
  pub fds : List (ℤ × ℕ)
  pub deadline : Option ℕ

pub data State : Type 0 where
  ready running done : State

-- `user_data` of the `mco_coro`.
pub record CoroUserdata : Type 0 where
  pub exit_code : ℤ
  pub closure : Option ℕ

pub record Coroutine : Type 0 where
  pub id : VPid
  pub ppid : VPid
  pub co : ℕ
  pub userdata : CoroUserdata
  pub state : State
  pub exit_code : ℤ
  pub is_fork_child : Bool
  pub fork_child_pid : ℕ
  pub c_strings : List ℕ
  pub mapped_regions : List (ℕ × ℕ)
  pub pending_signals : List ℤ
  pub cwd : Option (List ℕ)
  pub binary_path : Option (List ℕ)
  pub io_wait : Option IoWait
  pub stack_alloc : Option (ℕ × ℕ)

-- `Coroutine::new`, after `mco_create` has made the coroutine `co`.
unfoldable pub new : VPid → ℕ → ℕ → Coroutine
new id co f = record {
  id = id;
  ppid = 0;
  co = co;
  userdata = record { exit_code = pos 0; closure = some f };
  state = State.ready;
  exit_code = pos 0;
  is_fork_child = false;
  fork_child_pid = 0;
  c_strings = [];
  mapped_regions = [];
  pending_signals = [];
  cwd = none;
  binary_path = none;
  io_wait = none;
  stack_alloc = none;
}

unfoldable pub auxv_words : List (ℕ × ℕ) → List ℕ
auxv_words [] = []
auxv_words ((kind, value) ∷ rest) = kind ∷ value ∷ auxv_words rest

-- What `new_elf` writes at the bottom of the data it puts on the stack, as 64-bit words.
unfoldable pub elf_words : ℕ → List ℕ → List ℕ → List (ℕ × ℕ) → List ℕ
unfolding auxv_words
elf_words argc argv envp auxv = argc ∷ (argv ++ 0 ∷ (envp ++ 0 ∷ auxv_words auxv))

-- `(8 + argv_size + envp_size + auxv_size + 15) & !15`
unfoldable pub elf_data_size : List ℕ → List ℕ → List (ℕ × ℕ) → ℕ
elf_data_size argv envp auxv =
    let argv_size = (length argv + 1) * 8 in
    let envp_size = (length envp + 1) * 8 in
    let auxv_size = length auxv * 16 in
    let size = 8 + argv_size + envp_size + auxv_size + 15 in size - size % 16

-- `stack_top - elf_data_size`, the stack pointer at the entry.
unfoldable pub elf_data_bottom : ℕ → ℕ → List ℕ → List ℕ → List (ℕ × ℕ) → ℕ
unfolding elf_data_size
elf_data_bottom stack_base stack_size argv envp auxv =
    stack_base + stack_size - elf_data_size argv envp auxv

-- `Coroutine::new_elf`, after `mco_create_with_elf_entry` has made the coroutine `co`.
unfoldable pub new_elf : VPid → ℕ → ℕ → ℕ → Coroutine
new_elf id co stack_base stack_size = record {
  id = id;
  ppid = 0;
  co = co;
  userdata = record { exit_code = pos 0; closure = none };
  state = State.ready;
  exit_code = pos 0;
  is_fork_child = false;
  fork_child_pid = 0;
  c_strings = [];
  mapped_regions = [];
  pending_signals = [];
  cwd = none;
  binary_path = none;
  io_wait = none;
  stack_alloc = some (stack_base, stack_size);
}

unfoldable pub set_done : Coroutine → ℤ → Coroutine
set_done c code = record c {
  state = State.done;
  exit_code = code;
  userdata = record { exit_code = code; closure = none };
}

unfoldable pub is_done : Coroutine → Bool
is_done c = elim c.state [ State.done ↦ true | _ ↦ false ]

-- `Coroutine::fork_from`, after `mco_fork_from` has made the coroutine `co`.
unfoldable pub fork_from : VPid → Coroutine → ℕ → Coroutine
fork_from child_id parent co = record {
  id = child_id;
  ppid = parent.id;
  co = co;
  userdata = record { exit_code = pos 0; closure = none };
  state = State.ready;
  exit_code = pos 0;
  is_fork_child = true;
  fork_child_pid = 0;
  c_strings = [];
  mapped_regions = [];
  pending_signals = [];
  cwd = parent.cwd;
  binary_path = none;
  io_wait = none;
  stack_alloc = none;
}

-- `resume` before control passes to the coroutine, and after it comes back: `dead` is
-- `mco_status(co) == MCO_DEAD`.
unfoldable pub start_running : Coroutine → Coroutine
start_running c = record c { state = State.running }

unfoldable pub stop_running : Bool → Coroutine → Coroutine
unfolding is_done
stop_running dead c =
    if is_done c then c else record c { state = if dead then State.done else State.ready }

-- What `drop` gives back: the C strings, the mapped regions and the stack.
unfoldable pub drop_frees : Coroutine → List ℕ × List (ℕ × ℕ) × Option (ℕ × ℕ)
drop_frees c = (c.c_strings, c.mapped_regions, c.stack_alloc)
