-- ===== src/Base/Outcome.antt =====
-- backend/include/insightio/backend/result.hpp
use mathlib.Core.Path.{◌≡◌, refl}
use mathlib.Core.Logic.{◌⊎◌, inl, inr}
use mathlib.Core.Bool.{Bool, true, false}
use mathlib.Core.Option.{Option, none, some}
use mathlib.Core.List.{List}
use insight_io.Base.Tests.{if◌then◌else◌}
use Prim.Native.Nat.{ℕ}

pub record Error : Type 0 where
  pub code : List ℕ
  pub message : List ℕ

pub data Result {ℓ} (A : Type ℓ) : Type ℓ where
  ok : A → Result A
  err : Error → Result A

-- A chain that succeeds has a first step that succeeds.
pub bind-ok {ℓ} :
    {A B : Type ℓ} (x : Result A) (f : A → Result B) (b : B)
    → elim x as (λ _. Result B) [ err e ↦ err e | ok a ↦ f a ] ≡ ok b
    → (a : A) × (x ≡ ok a) × (f a ≡ ok b)
bind-ok (err e) f b h = absurd cc
bind-ok (ok a) f b h = (a, refl, h)

pub Result-cases {ℓ} :
    {A : Type ℓ} (x : Result A) → ((e : Error) × (x ≡ err e)) ⊎ ((a : A) × (x ≡ ok a))
Result-cases (err e) = inl (e, refl)
Result-cases (ok a) = inr (a, refl)

-- What holds of all outcomes of a choice holds of the choice.
module _ {ℓ} {A : Type ℓ} (P : A → Type ℓ) where
  pub if_by_cases :
      (b : Bool) (x y : A) → (b ≡ true → P x) → (b ≡ false → P y) → P (if b then x else y)
  if_by_cases true x y p q = p refl
  if_by_cases false x y p q = q refl

  pub failed_by_cases :
      (o : Option Error) (f : Error → A) (y : A)
      → ((e : Error) → P (f e))
      → P y
      → P (elim o as (λ _. A) [ some e ↦ f e | none ↦ y ])
  failed_by_cases none f y p q = q
  failed_by_cases (some e) f y p q = p e

  pub result_by_cases :
      {B : Type ℓ} (o : Result B) (f : Error → A) (g : B → A)
      → ((e : Error) → P (f e))
      → ((b : B) → o ≡ ok b → P (g b))
      → P (elim o as (λ _. A) [ err e ↦ f e | ok b ↦ g b ])
  result_by_cases (err e) f g p q = p e
  result_by_cases (ok b) f g p q = q b refl
