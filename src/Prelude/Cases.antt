-- ===== src/Prelude/Cases.antt =====
-- A property of a value computed by cases, from the property of each case.
use mathlib.Core.Path.{◌≡◌, refl}
use mathlib.Core.Bool.{Bool, true, false}
use mathlib.Core.Option.{Option, none, some}
use pudge_gaming_manager.Prelude.Tests.{if◌then◌else◌}

pub if_ind {ℓ} :
    {B : Type 0} (P : B → Type ℓ) (b : Bool) {x y : B}
    → (b ≡ true → P x)
    → (b ≡ false → P y)
    → P (if b then x else y)
if_ind P true f g = f refl
if_ind P false f g = g refl

pub option_ind {ℓ} :
    {A B : Type 0} (P : B → Type ℓ) (o : Option A) {x : B} {f : A → B}
    → (o ≡ none → P x)
    → ((a : A) → o ≡ some a → P (f a))
    → P (elim o [ none ↦ x | some a ↦ f a ])
option_ind P none h g = h refl
option_ind P (some a) h g = g a refl
