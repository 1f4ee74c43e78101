-- ===== src/Preload/Paths/Resolve.antt =====
-- `resolve_path` on relative paths, one after the other.
use vproc.Prelude.{
  ℕ, ◌≡◌, refl, sym, ap, List, [], ◌∷◌, ◌++◌, true, false, ◌==◌, retain, arith, Bool-cases, ◌⊎◌,
  inl, inr,
}
use mathlib.Core.Path.{subst}
use vproc.Preload.Paths.{
  slash, dot, split, is_part, components, pop, enter, walk, join, render, starts_with_slash,
  resolve_path,
}

-- No byte of the string is a slash.
abbrev pub NoSlash : List ℕ → Type 0
NoSlash [] = Unit {0}
NoSlash (byte ∷ bytes) = ((byte == slash) ≡ false) × NoSlash bytes

-- Each part is a name: not empty, without a slash.
abbrev pub AllNames : List (List ℕ) → Type 0
AllNames [] = Unit {0}
AllNames (part ∷ parts) = (is_part part ≡ true) × NoSlash part × AllNames parts

split_starts : (a : List ℕ) → (part : List ℕ) × (parts : List (List ℕ)) × (split a ≡ part ∷ parts)
unfolding split
split_starts [] = ([], [], refl)
split_starts (byte ∷ a) =
    let (part, parts, e) = split_starts a in
    elim (Bool-cases (byte == slash)) [
      | inl at_slash ↦ ([], split a, rw at_slash refl)
      | inr inside ↦ (byte ∷ part, parts, rw (inside, e) refl)
    ]

split-append : (a b : List ℕ) → split (a ++ slash ∷ b) ≡ split a ++ split b
unfolding split
split-append [] b = refl
split-append (byte ∷ a) b =
    let (part, parts, e) = split_starts a in
    let later = split-append a b in
    elim (Bool-cases (byte == slash)) [
      | inl at_slash ↦ rw (at_slash, later) refl
      | inr inside ↦ rw (inside, later, e) refl
    ]

split-name : (part rest : List ℕ) → NoSlash part → split (part ++ slash ∷ rest) ≡ part ∷ split rest
unfolding split
split-name [] rest h = refl
split-name (byte ∷ part) rest (ne, h) = rw (ne, split-name part rest h) refl

split-name_last : (part : List ℕ) → NoSlash part → split part ≡ part ∷ []
unfolding split
split-name_last [] h = refl
split-name_last (byte ∷ part) (ne, h) = rw (ne, split-name_last part h) refl

components-join : (parts : List (List ℕ)) → AllNames parts → components (join parts) ≡ parts
unfolding components join
components-join [] all = refl
components-join (part ∷ []) (name, plain, all) = rw (split-name_last part plain, name) refl
components-join (part ∷ next ∷ parts) (name, plain, all) =
    rw (split-name part (join (next ∷ parts)) plain, name)
      (ap (λ (l : List (List ℕ)). part ∷ l) (components-join (next ∷ parts) all))

components-render : (parts : List (List ℕ)) → AllNames parts → components (render parts) ≡ parts
unfolding components render split
components-render parts all = components-join parts all

walk-append : (parts xs ys : List (List ℕ)) → walk parts (xs ++ ys) ≡ walk (walk parts xs) ys
unfolding walk
walk-append parts [] ys = refl
walk-append parts (x ∷ xs) ys = walk-append (enter parts x) xs ys

-- No part has a slash.
AllPlain : List (List ℕ) → Type 0
AllPlain [] = Unit {0}
AllPlain (part ∷ parts) = NoSlash part × AllPlain parts

split-AllPlain : (a : List ℕ) → AllPlain (split a)
unfolding split AllPlain
split-AllPlain [] = (tt, tt)
split-AllPlain (byte ∷ a) =
    let (part, parts, e) = split_starts a in
    elim (Bool-cases (byte == slash)) [
      | inl at_slash ↦ rw at_slash (tt, split-AllPlain a)
      | inr inside ↦
          let plain = subst AllPlain e (split-AllPlain a) in
          rw (inside, e) ((inside, plain.0), plain.1)
    ]

retain-AllNames : (parts : List (List ℕ)) → AllPlain parts → AllNames (retain is_part parts)
unfolding AllPlain
retain-AllNames [] all = tt
retain-AllNames ([] ∷ parts) (plain, all) = retain-AllNames parts all
retain-AllNames ((byte ∷ part) ∷ parts) (plain, all) = (refl, plain, retain-AllNames parts all)

components-AllNames : (path : List ℕ) → AllNames (components path)
unfolding components
components-AllNames path = retain-AllNames (split path) (split-AllPlain path)

pop-AllNames : (parts : List (List ℕ)) → AllNames parts → AllNames (pop parts)
pop-AllNames [] all = tt
pop-AllNames (part ∷ []) all = tt
pop-AllNames (part ∷ next ∷ parts) (name, plain, all) =
    (name, plain, pop-AllNames (next ∷ parts) all)

snoc-AllNames :
    (parts : List (List ℕ)) (part : List ℕ)
    → AllNames parts
    → is_part part ≡ true
    → NoSlash part
    → AllNames (parts ++ part ∷ [])
snoc-AllNames [] part all h plain = (h, plain, tt)
snoc-AllNames (q ∷ parts) part (name, plain_q, all) h plain =
    (name, plain_q, snoc-AllNames parts part all h plain)

enter_cases :
    (parts : List (List ℕ)) (part : List ℕ)
    → (enter parts part ≡ parts)
      ⊎ (enter parts part ≡ pop parts)
      ⊎ ((is_part part ≡ true) × (enter parts part ≡ parts ++ part ∷ []))
unfolding enter
enter_cases parts [] = inl refl
enter_cases parts (a ∷ []) = elim (Bool-cases (a == dot)) [
  | inl is_dot ↦ inl (ground arith)
  | inr other ↦ inr (inr (refl, ground arith))
]
enter_cases parts (a ∷ b ∷ []) = elim (Bool-cases (a == dot)) [
  | inl first ↦ elim (Bool-cases (b == dot)) [
    | inl second ↦ inr (inl (ground arith))
    | inr other ↦ inr (inr (refl, ground arith))
  ]
  | inr other ↦ inr (inr (refl, ground arith))
]
enter_cases parts (a ∷ b ∷ c ∷ rest) = inr (inr (refl, refl))

enter-AllNames :
    (parts : List (List ℕ)) (part : List ℕ)
    → AllNames parts
    → NoSlash part
    → AllNames (enter parts part)
enter-AllNames parts part all plain = elim (enter_cases parts part) [
  | inl same ↦ subst AllNames (sym same) all
  | inr (inl up) ↦ subst AllNames (sym up) (pop-AllNames parts all)
  | inr (inr (h, down)) ↦ subst AllNames (sym down) (snoc-AllNames parts part all h plain)
]

walk-AllNames : (parts xs : List (List ℕ)) → AllNames parts → AllPlain xs → AllNames (walk parts xs)
unfolding walk AllPlain
walk-AllNames parts [] all plain = all
walk-AllNames parts (x ∷ xs) all (plain, rest) =
    walk-AllNames (enter parts x) xs (enter-AllNames parts x all plain) rest

-- Resolving one relative path, which is not empty, and then another against the result is resolving the
-- two joined by a slash.
pub resolve_path-resolve_path :
    (cwd a b : List ℕ)
    → is_part a ≡ true
    → starts_with_slash a ≡ false
    → starts_with_slash b ≡ false
    → resolve_path (resolve_path cwd a) b ≡ resolve_path cwd (a ++ slash ∷ b)
unfolding resolve_path
resolve_path-resolve_path cwd [] b named ha hb = absurd (ground arith)
resolve_path-resolve_path cwd (byte ∷ a) b named ha hb =
    let first = walk (components cwd) (split (byte ∷ a)) in
    let names =
      walk-AllNames (components cwd) (split (byte ∷ a)) (components-AllNames cwd)
        (split-AllPlain (byte ∷ a)) in
    rw (ha, hb, components-render first names, split-append (byte ∷ a) b)
      (ap render (sym (walk-append (components cwd) (split (byte ∷ a)) (split b))))
