-- ===== src/Prelude/Named.antt =====
-- `HashMap<String, V>` as an association list. A name is its bytes.
use vproc.Prelude.Tests.{◌==◌, if◌then◌else◌}
use Prim.Native.Nat.{ℕ}
use mathlib.Core.Path.{◌≡◌, refl, sym, ◌∙◌, subst}
use mathlib.Core.Bool.{Bool, true, false, ◌&&◌}
use mathlib.Core.List.{List, [], ◌∷◌}
use mathlib.Core.Option
use mathlib.Core.Option.{Option, none, some}
use native.Mathlib.Omega.{arith}

abbrev pub Name : Type 0
Name = List ℕ

infix 50 ◌==ˢ◌
unfoldable pub ◌==ˢ◌ : Name → Name → Bool
[] ==ˢ [] = true
[] ==ˢ (y ∷ ys) = false
(x ∷ xs) ==ˢ [] = false
(x ∷ xs) ==ˢ (y ∷ ys) = (x == y) && (xs ==ˢ ys)

pub ==ˢ→eq : (xs ys : Name) → (xs ==ˢ ys) ≡ true → xs ≡ ys
unfolding ◌==ˢ◌
==ˢ→eq [] [] h = refl
==ˢ→eq [] (y ∷ ys) h = cc
==ˢ→eq (x ∷ xs) [] h = cc
==ˢ→eq (x ∷ xs) (y ∷ ys) h = ground (arith, h, ==ˢ→eq xs ys)

pub ==ˢ-refl : (xs : Name) → (xs ==ˢ xs) ≡ true
unfolding ◌==ˢ◌
==ˢ-refl [] = refl
==ˢ-refl (x ∷ xs) = ground (arith, ==ˢ-refl xs)

-- Two names that are each equal to a third.
==ˢ_common : (xs ys zs : Name) → (xs ==ˢ zs) ≡ true → (ys ==ˢ zs) ≡ true → (xs ==ˢ ys) ≡ true
==ˢ_common xs ys zs h k =
    subst (λ n. (n ==ˢ ys) ≡ true) (==ˢ→eq ys zs k ∙ sym (==ˢ→eq xs zs h)) (==ˢ-refl ys)

abbrev pub Named {ℓ} : Type ℓ → Type ℓ
Named V = List (Name × V)

module _ {ℓ} {V : Type ℓ} where
  unfoldable pub find : Name → Named V → Option V
  find name [] = none
  find name ((at_name, value) ∷ entries) =
      if at_name ==ˢ name then some value else find name entries

  unfoldable pub put : Name → V → Named V → Named V
  put name value [] = (name, value) ∷ []
  put name value ((at_name, held) ∷ entries) =
      if at_name ==ˢ name then (name, value) ∷ entries else (at_name, held) ∷ put name value entries

  unfoldable pub delete : Name → Named V → Named V
  delete name [] = []
  delete name ((at_name, held) ∷ entries) =
      if at_name ==ˢ name then delete name entries else (at_name, held) ∷ delete name entries

  -- An update through a reference to the value.
  unfoldable pub adjust : Name → (V → V) → Named V → Named V
  adjust name f [] = []
  adjust name f ((at_name, held) ∷ entries) =
      if at_name ==ˢ name
      then (at_name, f held) ∷ entries
      else (at_name, held) ∷ adjust name f entries

  pub find-put :
      (name at_name : Name) (value : V) (entries : Named V)
      → find at_name (put name value entries)
        ≡ (if name ==ˢ at_name then some value else find at_name entries)
  unfolding find put
  find-put name at_name value [] = refl
  find-put name at_name value ((head, held) ∷ entries) =
      ground
        (arith, find-put name at_name value entries, ==ˢ→eq head name, ==ˢ_common head name at_name)

  pub find-delete :
      (name at_name : Name) (entries : Named V)
      → find at_name (delete name entries)
        ≡ (if name ==ˢ at_name then none else find at_name entries)
  unfolding find delete
  find-delete name at_name [] = ground arith
  find-delete name at_name ((head, held) ∷ entries) =
      ground
        (arith, find-delete name at_name entries, ==ˢ→eq head name, ==ˢ_common head name at_name)

  pub find-adjust :
      (name at_name : Name) (f : V → V) (entries : Named V)
      → find at_name (adjust name f entries)
        ≡ (if name ==ˢ at_name then Option.map f (find at_name entries) else find at_name entries)
  unfolding find adjust
  find-adjust name at_name f [] = ground arith
  find-adjust name at_name f ((head, held) ∷ entries) =
      ground
        (arith, find-adjust name at_name f entries, ==ˢ→eq head name, ==ˢ_common head name at_name)
