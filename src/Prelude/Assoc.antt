-- ===== src/Prelude/Assoc.antt =====
-- `HashMap<u32, V>` as an association list. The order of the list stands for the order in which
-- the map iterates, which the source does not fix.
pub mod Distinct
use vproc.Prelude.Tests.{◌==◌, if◌then◌else◌, is_some, Option-cases}
use vproc.Prelude.Lists.{length, any}
use Prim.Native.Nat.{ℕ, ◌≤◌, ◌<◌}
use mathlib.Core.Path.{◌≡◌, refl, sym, ap, ◌∙◌}
use mathlib.Core.Bool.{Bool, true, false, false≢true}
use mathlib.Core.Logic.{◌≢◌, inl, inr}
use mathlib.Core.List.{List, [], ◌∷◌, map}
use mathlib.Core.Option
use mathlib.Core.Option.{Option, none, some}
use native.Mathlib.Omega.{arith}

abbrev pub Assoc {ℓ} : Type ℓ → Type ℓ
Assoc V = List (ℕ × V)

module _ {ℓ} {V : Type ℓ} where
  unfoldable pub lookup : ℕ → Assoc V → Option V
  lookup key [] = none
  lookup key ((at_key, value) ∷ entries) = if at_key == key then some value else lookup key entries

  unfoldable pub insert : ℕ → V → Assoc V → Assoc V
  insert key value [] = (key, value) ∷ []
  insert key value ((at_key, held) ∷ entries) =
      if at_key == key then (key, value) ∷ entries else (at_key, held) ∷ insert key value entries

  unfoldable pub remove : ℕ → Assoc V → Assoc V
  remove key [] = []
  remove key ((at_key, held) ∷ entries) =
      if at_key == key then remove key entries else (at_key, held) ∷ remove key entries

  -- An update through `get_mut`.
  unfoldable pub modify : ℕ → (V → V) → Assoc V → Assoc V
  modify key f [] = []
  modify key f ((at_key, held) ∷ entries) =
      if at_key == key then (at_key, f held) ∷ entries else (at_key, held) ∷ modify key f entries

  abbrev pub contains_key : ℕ → Assoc V → Bool
  contains_key key entries = is_some (lookup key entries)

  abbrev pub any_value : (V → Bool) → Assoc V → Bool
  any_value p entries = any (λ e. p e.1) entries

  abbrev pub keys : Assoc V → List ℕ
  keys entries = map (λ e. e.0) entries

  pub lookup-insert :
      (key at_key : ℕ) (value : V) (entries : Assoc V)
      → lookup at_key (insert key value entries)
        ≡ (if key == at_key then some value else lookup at_key entries)
  unfolding lookup insert
  lookup-insert key at_key value [] = refl
  lookup-insert key at_key value ((head, held) ∷ entries) =
      ground (arith, lookup-insert key at_key value entries)

  pub lookup-remove :
      (key at_key : ℕ) (entries : Assoc V)
      → lookup at_key (remove key entries) ≡ (if key == at_key then none else lookup at_key entries)
  unfolding lookup remove
  lookup-remove key at_key [] = ground arith
  lookup-remove key at_key ((head, held) ∷ entries) =
      ground (arith, lookup-remove key at_key entries)

  pub lookup-modify_ne :
      (key at_key : ℕ) (f : V → V) (entries : Assoc V)
      → (key == at_key) ≡ false
      → lookup at_key (modify key f entries) ≡ lookup at_key entries
  unfolding lookup modify
  lookup-modify_ne key at_key f [] h = refl
  lookup-modify_ne key at_key f ((head, held) ∷ entries) h =
      ground (arith, lookup-modify_ne key at_key f entries h)

  pub lookup-modify :
      (key at_key : ℕ) (f : V → V) (entries : Assoc V)
      → lookup at_key (modify key f entries)
        ≡ (if key == at_key then Option.map f (lookup at_key entries) else lookup at_key entries)
  unfolding lookup modify
  lookup-modify key at_key f [] = ground arith
  lookup-modify key at_key f ((head, held) ∷ entries) =
      ground (arith, lookup-modify key at_key f entries)

  pub lookup-modify_self :
      (key : ℕ) (f : V → V) (value : V) (entries : Assoc V)
      → lookup key entries ≡ some value
      → lookup key (modify key f entries) ≡ some (f value)
  unfolding lookup modify
  lookup-modify_self key f value [] h = cc
  lookup-modify_self key f value ((head, held) ∷ entries) h =
      ground (arith, lookup-modify_self key f value entries)

  pub lookup-modify-none :
      (key at_key : ℕ) (f : V → V) (entries : Assoc V)
      → lookup at_key entries ≡ none
      → lookup at_key (modify key f entries) ≡ none
  unfolding lookup modify
  lookup-modify-none key at_key f [] h = refl
  lookup-modify-none key at_key f ((head, held) ∷ entries) h =
      ground (arith, lookup-modify-none key at_key f entries)

  pub contains_key→some :
      (key : ℕ) (entries : Assoc V)
      → contains_key key entries ≡ true
      → (value : V) × (lookup key entries ≡ some value)
  contains_key→some key entries h = elim (Option-cases (lookup key entries)) [
    | inl absent ↦ absurd (false≢true (sym (ap is_some absent) ∙ h))
    | inr found ↦ found
  ]

  pub contains_key→none :
      (key : ℕ) (entries : Assoc V) → contains_key key entries ≡ false → lookup key entries ≡ none
  contains_key→none key entries h = ground arith

  pub lookup-remove_ne :
      (key at_key : ℕ) (entries : Assoc V)
      → key ≢ at_key
      → lookup at_key (remove key entries) ≡ lookup at_key entries
  lookup-remove_ne key at_key entries h = ground (arith, lookup-remove key at_key entries)

  pub length-remove-le :
      (key : ℕ) (entries : Assoc V) → length (remove key entries) ≤ length entries
  unfolding remove
  length-remove-le key [] = omega arith
  length-remove-le key ((head, held) ∷ entries) = ground (arith, length-remove-le key entries)

  -- A removal of a key that is there makes the map smaller.
  pub length-remove-lt :
      (key : ℕ) (entries : Assoc V)
      → contains_key key entries ≡ true
      → length (remove key entries) < length entries
  unfolding lookup remove
  length-remove-lt key [] h = cc
  length-remove-lt key ((head, held) ∷ entries) h =
      ground (arith, length-remove-le key entries, length-remove-lt key entries)

  -- What a key holds is found by a search through the values.
  pub any_value-lookup :
      (p : V → Bool) (key : ℕ) (value : V) (entries : Assoc V)
      → lookup key entries ≡ some value
      → p value ≡ true
      → any_value p entries ≡ true
  unfolding lookup
  any_value-lookup p key value [] h t = cc
  any_value-lookup p key value ((head, held) ∷ entries) h t =
      ground (arith, any_value-lookup p key value entries)
