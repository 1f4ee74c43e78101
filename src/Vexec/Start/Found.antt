-- ===== src/Vexec/Start/Found.antt =====
-- What `extract_main_addr` finds.
use vproc.Prelude.{
  ℕ, zero, suc, ◌+◌, ◌-◌, ◌*◌, ◌/◌, ◌%◌, ◌^◌, ◌<◌, ◌≤◌, ◌≡◌, ◌≢◌, ◌⊎◌, refl, true, false, ◌==◌,
  ◌&&◌, some, arith, Option-cases, Bool-cases, inl, inr,
}
use mathlib.Core.Path.{subst}
use vproc.Vexec.Start.{
  is_ldr_x2, is_adrp, is_add, find_add, decode_adrp, imm12, base_register, main_at, is_main,
  search_back, search_from, extract_main_addr,
}

module _ (code : ℕ → ℕ) (word_at : ℕ → ℕ) (entry_addr : ℕ) where
  -- No instruction from `k` to before `i` adds to the register.
  abbrev pub NoAdd : ℕ → ℕ → ℕ → Type 0
  NoAdd rn k i = (at : ℕ) → k ≤ at → at < i → is_add rn (code at) ≡ false

  -- What the last ADD of the register to itself between `j` and `i` adds, which is 0 without one.
  abbrev pub Addend : ℕ → ℕ → ℕ → ℕ → Type 0
  Addend rn j i addend =
      ((addend ≡ 0) × NoAdd rn (j + 1) i)
      ⊎ ((k : ℕ) × (j < k)
          × (k < i)
          × (is_add rn (code k) ≡ true)
          × (addend ≡ code k / 2 ^ 10 % 2 ^ 12)
          × NoAdd rn (k + 1) i)

  find_add_lem :
      (rn n k before : ℕ)
      → ((find_add code word_at entry_addr rn n k before ≡ before) × NoAdd rn k (k + n))
        ⊎ ((at : ℕ) × (k ≤ at)
            × (at < k + n)
            × (is_add rn (code at) ≡ true)
            × (find_add code word_at entry_addr rn n k before ≡ code at / 2 ^ 10 % 2 ^ 12)
            × NoAdd rn (at + 1) (k + n))
  unfolding find_add
  find_add_lem rn zero k before = inl (refl, λ at from to. absurd (omega arith))
  find_add_lem rn (suc n) k before = elim (Bool-cases (is_add rn (code k))) [
    | inl adds ↦ elim (find_add_lem rn n (k + 1) (imm12 (code k))) [
      | inl (e, none_later) ↦ inr (
        k,
        omega arith,
        omega arith,
        adds,
        rw adds e,
        λ at from to. none_later at (omega arith) (omega arith),
      )
      | inr (at, from, to, adds', e, none_later) ↦ inr (
        at,
        omega arith,
        omega arith,
        adds',
        rw adds e,
        λ later f t. none_later later f (omega arith),
      )
    ]
    | inr plain ↦ elim (find_add_lem rn n (k + 1) before) [
      | inl (e, none_later) ↦ inl (
        rw plain e,
        λ at from to. elim (Bool-cases (k == at)) [
          | inl same ↦
              let here : k ≡ at = ground (arith, same) in
              subst (λ x. is_add rn (code x) ≡ false) here plain
          | inr other ↦
              let past : k + 1 ≤ at = ground (arith, other) in none_later at past (omega arith)
        ],
      )
      | inr (at, from, to, adds', e, none_later) ↦ inr (
        at,
        omega arith,
        omega arith,
        adds',
        rw plain e,
        λ later f t. none_later later f (omega arith),
      )
    ]
  ]

  -- The load at `i` and the page address at `j` give `addr`: the word at the page, plus what is added to
  -- it in between, plus the offset of the load.
  pub record Loads (i j addr : ℕ) : Type 0 where
    pub in_order : j < i
    pub is_load : is_ldr_x2 (code i) ≡ true
    pub is_page : is_adrp (base_register (code i)) (code j) ≡ true
    pub addend : ℕ
    pub is_addend : Addend (code i / 2 ^ 5 % 2 ^ 5) j i addend
    pub is_word :
        word_at (
          (decode_adrp (entry_addr + j * 4) (code j) + addend + code i / 2 ^ 10 % 2 ^ 12 * 8)
          % 2 ^ 64)
        ≡ addr
    pub is_code : (addr ≢ 0) × (addr % 4 ≡ 0)

  -- The word in the terms of the source.
  found-Loads :
      (i j addr : ℕ)
      → is_ldr_x2 (code i) ≡ true
      → j < i
      → is_adrp (base_register (code i)) (code j) ≡ true
      → main_at code word_at entry_addr i j ≡ addr
      → is_main addr ≡ true
      → Loads i j addr
  unfolding main_at
  found-Loads i j addr load le page word good =
      let rn = base_register (code i) in
      let gap : j + 1 + (i - (j + 1)) ≡ i = omega arith in
      record {
        in_order = le;
        is_load = load;
        is_page = page;
        addend = find_add code word_at entry_addr rn (i - (j + 1)) (j + 1) 0;
        is_addend = elim (find_add_lem rn (i - (j + 1)) (j + 1) 0) [
          | inl (e, none_there) ↦ inl (e, λ at from to. none_there at from (omega arith))
          | inr (k, from, to, adds, e, none_later) ↦
              inr (k, omega arith, omega arith, adds, e, λ at f t. none_later at f (omega arith))
        ];
        is_word = word;
        is_code = (ground (arith, good), ground (arith, good));
      }

  search_back_lem :
      (i j addr : ℕ)
      → is_ldr_x2 (code i) ≡ true
      → j ≤ i
      → search_back code word_at entry_addr i j ≡ some addr
      → (at : ℕ) × Loads i at addr
  unfolding search_back
  search_back_lem i zero addr load le h = cc
  search_back_lem i (suc j) addr load le h =
      elim (Bool-cases (
        is_adrp (base_register (code i)) (code j)
        && is_main (main_at code word_at entry_addr i j))) [
          | inl here ↦ (
            j,
            found-Loads i j addr load le (ground arith) (ground (arith, h, here))
                (ground (arith, h, here)),
          )
          | inr earlier ↦ search_back_lem i j addr load (omega arith) (ground (arith, h, earlier))
        ]

  search_from_lem :
      (n i addr : ℕ)
      → search_from code word_at entry_addr n i ≡ some addr
      → (to : ℕ) × (at : ℕ) × (to < n + i) × Loads to at addr
  unfolding search_from
  search_from_lem zero i addr h = cc
  search_from_lem (suc n) i addr h = elim (Bool-cases (is_ldr_x2 (code i))) [
    | inl load ↦ elim (Option-cases (search_back code word_at entry_addr i i)) [
      | inr (found, e) ↦
          let same : found ≡ addr = ground (arith, h, load, e) in
          let (at, loads) = search_back_lem i i addr load (omega arith) (rw (← same) e) in
          (i, at, omega arith, loads)
      | inl none_here ↦
          let (to, at, lt, loads) =
            search_from_lem n (i + 1) addr (ground (arith, h, load, none_here)) in
          (to, at, omega arith, loads)
    ]
    | inr other ↦
        let (to, at, lt, loads) = search_from_lem n (i + 1) addr (ground (arith, h, other)) in
        (to, at, omega arith, loads)
  ]

  -- What `extract_main_addr` finds is an aligned address other than 0, and it is the word that a pair
  -- of instructions among the first 48 refers to: a load into x2, and before it an ADRP of the base
  -- register of that load. The word is the one at the page that `decode_adrp` gives, plus the immediate
  -- of the last ADD of that register to itself between the two, if there is one, plus the offset of
  -- the load in words of 8 bytes.
  pub extract_main_addr_lem :
      (addr : ℕ)
      → extract_main_addr code word_at entry_addr ≡ some addr
      → (i : ℕ) × (j : ℕ) × (i < 48) × Loads i j addr
  unfolding extract_main_addr
  extract_main_addr_lem addr h = search_from_lem 48 0 addr h
