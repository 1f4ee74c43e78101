-- ===== src/Vfd/Tests.antt =====
-- The theorems on src/vfd.rs at concrete tables, and runs of its methods.
use vproc.Prelude.{ℕ, ◌≡◌, ◌↔◌, refl, [], ◌∷◌, ◌++◌, true, some, arith, inl, inr, ◌==◌, Bool-cases}
use mathlib.Core.Path.{subst}
use vproc.Prelude.Int.{pos}
use vproc.Prelude.Assoc.{lookup}
use vproc.Prelude.Assoc.Distinct.{Distinct}
use vproc.Vfd.Pipe
use vproc.Vfd.Pipe.{PipeBuffer}
use vproc.Vfd.Pipe.Inv.{IsValid as IsValidPipe, new-IsValid, write_to-IsValid}
use vproc.Vfd.Pipe.Window.{contents}
use vproc.Vfd.Pipe.Stream
use vproc.Vfd.Pipe.Refine.{view, read_from_refines, write_to_refines}
use vproc.Vfd.Pipe.Traffic.{reads, writes, closes, run, run_conserves}
use vproc.Vfd.Table.{
  Vfd, real, file, pipe_read, pipe_write, FileRef, VfdTable, get, insert_vfd, real_fd_of,
}
use vproc.Vfd.Table.Alloc.{IsValid}
use vproc.Vfd.Table.Insert.{Adds, insert_vfd-Adds}
use vproc.Vfd.Tables.{FdTables, get_table, contains_ℤ, remove_table_and_get_fds}
use vproc.Vfd.Tables.Sole.{AllDistinct}
use vproc.Vfd.Tables.Reclaim.{AnswersFor, reclaimed_owned}

-- Three bytes written to a new pipe.
written : PipeBuffer
written = (Pipe.write_to Pipe.new (1 ∷ 2 ∷ 3 ∷ [])).1

written-IsValid : IsValidPipe written
unfolding written
written-IsValid = write_to-IsValid Pipe.new (1 ∷ 2 ∷ 3 ∷ []) new-IsValid

run_conserves_example :
    let calls = reads (0 ∷ 0 ∷ []) ∷ writes (4 ∷ []) ∷ closes ∷ [] in
    (contents written ++ (run written calls).accepted
      ≡ (run written calls).received ++ contents (run written calls).final)
    × IsValidPipe (run written calls).final
run_conserves_example =
    run_conserves (reads (0 ∷ 0 ∷ []) ∷ writes (4 ∷ []) ∷ closes ∷ []) written written-IsValid

read_from_refines_example :
    let (n, dst', p') = Pipe.read_from written (0 ∷ 0 ∷ []) in
    (n, dst', view p') ≡ Stream.read (view written) (0 ∷ 0 ∷ [])
read_from_refines_example = read_from_refines written (0 ∷ 0 ∷ []) written-IsValid

write_to_refines_example :
    let (n, p') = Pipe.write_to written (4 ∷ []) in
    (n, view p') ≡ Stream.write (view written) (4 ∷ [])
write_to_refines_example = write_to_refines written (4 ∷ []) written-IsValid

abbrev log_file : FileRef
log_file = record { real_fd = pos 40; cloexec = true }

-- Standard input, both ends of buffer 0, and one file on two descriptors.
abbrev sample : VfdTable
sample = record {
  fds =
      (0, real (pos 0))
      ∷ (3, pipe_read 0)
      ∷ (4, pipe_write 0)
      ∷ (5, file 7 log_file)
      ∷ (6, file 7 log_file)
      ∷ [];
  next_fd = 8;
}

sample-Distinct : Distinct sample.fds
unfolding lookup
sample-Distinct = (refl, (refl, (refl, (refl, (refl, tt)))))

sample-IsValid : IsValid sample
unfolding lookup
sample-IsValid = record { fresh = refl; next_in = omega arith; distinct = sample-Distinct }

insert_vfd-Adds_example : Adds sample (real (pos 9)) (insert_vfd sample (real (pos 9)))
insert_vfd-Adds_example = insert_vfd-Adds sample (real (pos 9)) sample-IsValid (omega arith)

-- Process 1 with the table above.
abbrev one_process : FdTables
one_process = record { tables = (1, sample) ∷ []; pipes = written ∷ [] }

-- Process 1 holds a file alone.
abbrev alone : FdTables
alone = record {
  tables = (1, record { fds = (0, real (pos 0)) ∷ (3, file 7 log_file) ∷ []; next_fd = 4 }) ∷ [];
  pipes = [];
}

alone_result : contains_ℤ (pos 40) (remove_table_and_get_fds alone 1).0 ≡ true
unfolding remove_table_and_get_fds lookup
alone_result = refl

alone-AllDistinct : AllDistinct alone.tables
unfolding lookup
alone-AllDistinct v t h = elim (Bool-cases (1 == v)) [
  | inl same ↦
      let own : record { fds = (0, real (pos 0)) ∷ (3, file 7 log_file) ∷ []; next_fd = 4 } ≡ t =
        ground (arith, same) in
      subst (λ (x : VfdTable). Distinct x.fds) own (refl, (refl, tt))
  | inr other ↦ absurd (ground (arith, other))
]

reclaimed_owned_example : (contains_ℤ (pos 40) (remove_table_and_get_fds alone 1).0 ≡ true) ↔ (
    (fd : ℕ) × (vfd : Vfd) × (get
        (record { fds = (0, real (pos 0)) ∷ (3, file 7 log_file) ∷ []; next_fd = 4 })
        fd
      ≡ some vfd)
    × AnswersFor alone.tables 1 fd (pos 40) vfd)
unfolding lookup get_table
reclaimed_owned_example =
    reclaimed_owned alone 1
      (record { fds = (0, real (pos 0)) ∷ (3, file 7 log_file) ∷ []; next_fd = 4 }) (pos 40) refl
      (refl, tt) alone-AllDistinct

only_log :
    (j : ℕ) (vfd : Vfd)
    → get sample j ≡ some vfd
    → real_fd_of (some vfd) ≡ some (pos 40)
    → vfd ≡ file 7 log_file
unfolding lookup get real_fd_of
only_log j vfd h e = ground arith
