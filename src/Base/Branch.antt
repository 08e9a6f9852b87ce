-- ===== src/Base/Branch.antt =====
-- What holds of both branches of a test holds of the test.
use mathlib.Core.Path.{◌≡◌, refl}
use mathlib.Core.Bool.{Bool, true, false}
use native.Mathlib.Omega.{arith}
use mango_hub.Base.Tests.{if◌then◌else◌}

pub either {ℓ ℓ'} :
    {A : Type ℓ} → (Q : A → Type ℓ') → {x y : A} → (b : Bool) → Q x → Q y → Q (if b then x else y)
either Q true q q' = q
either Q false q q' = q'

pub either_by {ℓ ℓ'} :
    {A : Type ℓ}
    → (Q : A → Type ℓ') → {x y : A} → (b : Bool) → (b ≡ true → Q x)
    → (b ≡ false → Q y)
    → Q (if b then x else y)
either_by Q true q q' = q refl
either_by Q false q q' = q' refl

pub if_true {ℓ ℓ'} :
    {A : Type ℓ}
    → (Q : A → Type ℓ') → {x : A} → (y : A) → (b : Bool) → b ≡ true
    → Q x
    → Q (if b then x else y)
if_true Q y true e q = q
if_true Q y false e q = ground arith

pub if_false {ℓ ℓ'} :
    {A : Type ℓ}
    → (Q : A → Type ℓ') → (x : A) → {y : A} → (b : Bool) → b ≡ false
    → Q y
    → Q (if b then x else y)
if_false Q x true e q = ground arith
if_false Q x false e q = q

pub elim_by {ℓ ℓ'} :
    {A : Type ℓ}
    → (Q : A → Type ℓ') → {x y : A} → (b : Bool) → (b ≡ true → Q x)
    → (b ≡ false → Q y)
    → Q (elim b [ true ↦ x | false ↦ y ])
elim_by Q true q q' = q refl
elim_by Q false q q' = q' refl
