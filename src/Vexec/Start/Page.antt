-- ===== src/Vexec/Start/Page.antt =====
-- The page that `decode_adrp` finds, beside the one that the instruction means.
use vproc.Prelude.{
  ℕ, ◌+◌, ◌-◌, ◌*◌, ◌%◌, ◌^◌, ◌≤◌, ◌<◌, ◌≡◌, ◌≢◌, ap, ◌↔◌, ◌⊎◌, inl, inr, ltb, if◌then◌else◌, arith,
  Bool-cases,
}
use vproc.Vexec.Start.{immediate, sign_extended, decode_adrp}

-- The target of ADRP by the architecture: the page of the instruction and the immediate, a signed
-- number of 21 bits, in pages.
unfoldable pub adrp_target : ℕ → ℕ → ℕ
adrp_target pc insn =
    let imm = immediate insn in
    let offset = if ltb imm (2 ^ 20) then imm else imm + (2 ^ 64 - 2 ^ 21) in
    (pc - pc % 2 ^ 12 + offset * 2 ^ 12 % 2 ^ 64) % 2 ^ 64

immediate_bound : (insn : ℕ) → immediate insn < 2 ^ 21
unfolding immediate
immediate_bound insn = omega arith

-- Adding to a page and wrapping loses nothing.
wrapped_sum : (p a b : ℕ) → a < 2 ^ 64 → b < 2 ^ 64 → (p + a) % 2 ^ 64 ≡ (p + b) % 2 ^ 64 → a ≡ b
wrapped_sum p a b ha hb h = omega arith

near_same :
    (imm : ℕ)
    → imm < 2 ^ 21
    → (imm < 2 ^ 19) ⊎ (2 ^ 21 - 2 ^ 19 ≤ imm)
    → sign_extended imm * 2 ^ 12 % 2 ^ 64
      ≡ (if ltb imm (2 ^ 20) then imm else imm + (2 ^ 64 - 2 ^ 21)) * 2 ^ 12 % 2 ^ 64
unfolding sign_extended
near_same imm small (inl low) = ground arith
near_same imm small (inr high) = ground arith

far_differs :
    (imm : ℕ)
    → 2 ^ 19 ≤ imm
    → imm < 2 ^ 21 - 2 ^ 19
    → sign_extended imm * 2 ^ 12 % 2 ^ 64
      ≢ (if ltb imm (2 ^ 20) then imm else imm + (2 ^ 64 - 2 ^ 21)) * 2 ^ 12 % 2 ^ 64
unfolding sign_extended
far_differs imm low high = ground arith

-- `decode_adrp` finds the page that the instruction means exactly where the immediate is, as a signed
-- number, at least -2^19 and below 2^19, which are targets within 2 GiB; the instruction itself
-- reaches 4 GiB.
pub decode_adrp_iff :
    (pc insn : ℕ)
    → (decode_adrp pc insn ≡ adrp_target pc insn)
      ↔ ((immediate insn < 2 ^ 19) ⊎ (2 ^ 21 - 2 ^ 19 ≤ immediate insn))
unfolding decode_adrp adrp_target
decode_adrp_iff pc insn =
    let small = immediate_bound insn in
    (
      λ same. elim (Bool-cases (ltb (immediate insn) (2 ^ 19))) [
        | inl low ↦ inl (ground arith)
        | inr middle ↦ elim (Bool-cases (ltb (immediate insn) (2 ^ 21 - 2 ^ 19))) [
          | inl far ↦ absurd (
              far_differs (immediate insn) (ground arith) (ground arith)
                (wrapped_sum (pc - pc % 2 ^ 12) _ _ (omega arith) (omega arith) same))
          | inr high ↦ inr (ground arith)
        ]
      ],
      λ near. ap (λ a. (pc - pc % 2 ^ 12 + a) % 2 ^ 64) (near_same (immediate insn) small near),
    )
