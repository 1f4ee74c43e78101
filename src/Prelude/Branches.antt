-- ===== src/Prelude/Branches.antt =====
-- A property of what a test, an option or a result leads to, from that of each branch.
use vproc.Prelude.Tests.{if◌then◌else◌, Result, ok, err}
use mathlib.Core.Bool.{Bool, true, false}
use mathlib.Core.Option.{Option, none, some}

pub of_if {ℓ μ} :
    {A : Type ℓ} (P : A → Type μ) (b : Bool) (x y : A) → P x → P y → P (if b then x else y)
of_if P true x y px py = px
of_if P false x y px py = py

pub of_option {ℓ κ μ} :
    {A : Type ℓ} {B : Type κ} (P : A → Type μ) (o : Option B) (x : A) (f : B → A)
    → P x
    → ((b : B) → P (f b))
    → P (elim o [ none ↦ x | some b ↦ f b ])
of_option P none x f px pf = px
of_option P (some b) x f px pf = pf b

pub of_result {ℓ κ μ ν} :
    {A : Type ℓ} {B : Type κ} {E : Type ν} (P : A → Type μ) (r : Result E B) (f : E → A) (g : B → A)
    → ((e : E) → P (f e))
    → ((b : B) → P (g b))
    → P (elim r [ err e ↦ f e | ok b ↦ g b ])
of_result P (err e) f g pf pg = pf e
of_result P (ok b) f g pf pg = pg b
