-- ===== src/Preload/Select/Bits.antt =====
-- What the sets of `select` hold after the answer of `poll`.
use vproc.Prelude.{
  ℕ, zero, suc, ◌+◌, ◌≤◌, ◌<◌, ◌≡◌, refl, ◌∙◌, ap, min, List, [], ◌∷◌, Bool, true, false, ◌&&◌, not,
  Option, none, some, ltb, ◌==◌, ==→eq, if◌then◌else◌, arith, Bool-cases, inl, inr,
}
use mathlib.Core.Path.{subst}
use vproc.Prelude.Int.{ℤ, pos}
use vproc.Executor.Io.{PollFd}
use vproc.Preload.Process.{is_positive}
use vproc.Preload.Poll.{pollin, pollpri, pollout, has_event}
use vproc.Preload.Select.{
  FdSet, FdSets, fd_setsize, events_of, build_from, build_pollfds, set_bits, refill, select_fds,
  select_results,
}

-- A `poll` that answers for each descriptor.
abbrev pub answer_all : (ℤ → ℕ) → List PollFd → List PollFd
answer_all answer [] = []
answer_all answer (pfd ∷ pfds) = record pfd { revents = answer pfd.fd } ∷ answer_all answer pfds

if-same : (b : Bool) → (if b then true else false) ≡ b
if-same true = refl
if-same false = refl

module _ (answer : ℤ → ℕ) (sets : FdSets) (flag : ℕ) where
  -- The descriptor was asked for something, and got the flag.
  abbrev pub is_got : ℕ → Bool
  is_got x = not (events_of sets x == 0) && has_event flag (answer (pos x))

  -- The set after the loop, from the descriptor `fd` on.
  abbrev bits : ℕ → ℕ → ℕ → Bool
  bits left fd x = set_bits flag (answer_all answer (build_from sets left fd)) x

  bits-here :
      (left fd : ℕ) → bits (suc left) fd fd ≡ (if is_got fd then true else bits left (fd + 1) fd)
  unfolding set_bits build_from
  bits-here left fd = elim (Bool-cases (events_of sets fd == 0)) [
    | inl unasked ↦ rw unasked refl
    | inr asked ↦ elim (Bool-cases (has_event flag (answer (pos fd)))) [
      | inl got ↦ rw (asked, got) (ground arith)
      | inr missed ↦ rw (asked, missed) refl
    ]
  ]

  bits-there : (left fd x : ℕ) → (fd == x) ≡ false → bits (suc left) fd x ≡ bits left (fd + 1) x
  unfolding set_bits build_from
  bits-there left fd x other = elim (Bool-cases (events_of sets fd == 0)) [
    | inl unasked ↦ rw unasked refl
    | inr asked ↦ elim (Bool-cases (has_event flag (answer (pos fd)))) [
      | inl got ↦ rw (asked, got, other) refl
      | inr missed ↦ rw (asked, missed) refl
    ]
  ]

  bits-below : (left fd x : ℕ) → x < fd → bits left fd x ≡ false
  unfolding set_bits build_from
  bits-below zero fd x below = refl
  bits-below (suc left) fd x below =
      bits-there left fd x (ground (arith, below)) ∙ bits-below left (fd + 1) x (omega arith)

  bits-in : (left fd x : ℕ) → fd ≤ x → bits left fd x ≡ (ltb x (fd + left) && is_got x)
  unfolding set_bits build_from
  bits-in zero fd x from = let past : ltb x (fd + 0) ≡ false = ground (arith, from) in rw past refl
  bits-in (suc left) fd x from = elim (Bool-cases (fd == x)) [
    | inl same ↦
        let eq = ==→eq fd x same in
        let past = bits-below left (fd + 1) fd (omega arith) in
        let inside : ltb fd (fd + suc left) ≡ true = ground arith in
        let here : bits (suc left) fd fd ≡ (ltb fd (fd + suc left) && is_got fd) =
          bits-here left fd ∙ rw (past, inside) (if-same (is_got fd)) in
        subst (λ y. bits (suc left) fd y ≡ (ltb y (fd + suc left) && is_got y)) eq here
    | inr other ↦
        let shift : ltb x (fd + 1 + left) ≡ ltb x (fd + suc left) = ground arith in
        bits-there left fd x other
        ∙ bits-in left (fd + 1) x (ground (arith, other))
        ∙ ap (λ (b : Bool). b && is_got x) shift
  ]

-- `poll` on the descriptors of `select`, which answers for each and returns `ret`.
abbrev pub answering : ℤ → (ℤ → ℕ) → List PollFd → ℤ → ℤ × List PollFd
answering ret answer pollfds timeout = (ret, answer_all answer pollfds)

-- The descriptor is below `nfds` and 1024, in one of the sets, and `poll` found the event on it.
abbrev pub is_found : (ℤ → ℕ) → FdSets → ℕ → ℕ → ℕ → Bool
is_found answer sets nfds flag x = ltb x (min nfds fd_setsize) && is_got answer sets flag x

-- A set after the call: null as before, or with exactly the descriptors of the test.
abbrev pub Holds : Option FdSet → Option FdSet → (ℕ → Bool) → Type 0
Holds none out test = out ≡ none
Holds (some set) none test = ⊥
Holds (some set) (some out) test = (x : ℕ) → out x ≡ test x

refill-Holds :
    (answer : ℤ → ℕ) (sets : FdSets) (nfds flag : ℕ) (ret : ℤ) (set : Option FdSet)
    → is_positive ret ≡ true
    → Holds set
        (refill flag ret (answer_all answer (build_pollfds sets (pos nfds))) set)
        (is_found answer sets nfds flag)
unfolding refill build_pollfds
refill-Holds answer sets nfds flag ret none positive = refl
refill-Holds answer sets nfds flag ret (some set) positive =
    let bound = min nfds fd_setsize in
    let all : (0 + bound) ≡ bound = omega arith in
    λ x. rw positive (
      bits-in answer sets flag bound 0 x (omega arith)
      ∙ ap (λ n. ltb x n && is_got answer sets flag x) all)

-- Where `poll` returns a positive number, each set that `select` was given holds afterwards the
-- descriptors below `nfds` and 1024 that were in some set and that `poll` found readable, writable or
-- urgent, as the set is for, and no other: a descriptor on which `poll` found only POLLHUP or POLLERR
-- is in none, though `select` returns that it is ready.
pub select_fds_lem :
    (answer : ℤ → ℕ) (sets : FdSets) (nfds : ℕ) (ret : ℤ) (timeout : Option (ℕ × ℕ))
    → is_positive ret ≡ true
    → let (result, out) = select_fds (answering ret answer) (pos nfds) sets timeout in
      (result ≡ ret)
      × Holds sets.readfds out.readfds (is_found answer sets nfds pollin)
      × Holds sets.writefds out.writefds (is_found answer sets nfds pollout)
      × Holds sets.exceptfds out.exceptfds (is_found answer sets nfds pollpri)
unfolding select_fds select_results
select_fds_lem answer sets nfds ret timeout positive = (
  refl,
  refill-Holds answer sets nfds pollin ret sets.readfds positive,
  refill-Holds answer sets nfds pollout ret sets.writefds positive,
  refill-Holds answer sets nfds pollpri ret sets.exceptfds positive,
)
