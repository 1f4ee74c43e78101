-- ===== src/Prelude/Assoc/Distinct.antt =====
-- A map that holds each key once. Searches through its values then say what lookups say.
use vproc.Prelude.Tests.{Bool-cases}
use vproc.Prelude.Assoc.{
  Assoc, lookup, insert, remove, modify, any_value, lookup-insert, lookup-remove,
  lookup-modify-none,
}
use Prim.Native.Nat.{ℕ}
use mathlib.Core.Path.{◌≡◌, refl}
use mathlib.Core.Logic.{inl, inr}
use mathlib.Core.Bool.{Bool, true}
use mathlib.Core.List.{[], ◌∷◌}
use mathlib.Core.Option.{none, some}
use native.Mathlib.Omega.{arith}

module _ {ℓ} {V : Type ℓ} where
  abbrev pub Distinct : Assoc V → Type ℓ
  Distinct [] = Unit
  Distinct ((k, v) ∷ m) = (lookup k m ≡ none) × Distinct m

  pub insert-Distinct : (k : ℕ) (v : V) (m : Assoc V) → Distinct m → Distinct (insert k v m)
  unfolding insert lookup
  insert-Distinct k v [] d = (refl, tt)
  insert-Distinct k v ((i, w) ∷ m) d =
      ground (arith, insert-Distinct k v m d.1, lookup-insert k i v m)

  pub remove-Distinct : (k : ℕ) (m : Assoc V) → Distinct m → Distinct (remove k m)
  unfolding remove
  remove-Distinct k [] d = tt
  remove-Distinct k ((i, w) ∷ m) d = ground (arith, remove-Distinct k m d.1, lookup-remove k i m)

  pub modify-Distinct : (k : ℕ) (f : V → V) (m : Assoc V) → Distinct m → Distinct (modify k f m)
  unfolding modify
  modify-Distinct k f [] d = tt
  modify-Distinct k f ((i, w) ∷ m) d =
      ground (arith, modify-Distinct k f m d.1, lookup-modify-none k i f m d.0)

  -- What a search through the values finds is under some key.
  pub any_value-witness :
      (p : V → Bool) (m : Assoc V)
      → Distinct m
      → any_value p m ≡ true
      → (k : ℕ) × (v : V) × (lookup k m ≡ some v) × (p v ≡ true)
  unfolding lookup
  any_value-witness p [] d h = cc
  any_value-witness p ((i, w) ∷ m) d h = elim (Bool-cases (p w)) [
    | inl here ↦ (i, w, ground arith, here)
    | inr there ↦
        let (k, v, found, holds) = any_value-witness p m d.1 (rw there at h) in
        (k, v, ground arith, holds)
  ]
