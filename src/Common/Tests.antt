-- ===== src/Common/Tests.antt =====
-- Boolean tests on the native numbers, the conditional, and splits that keep an equation.
use Prim.Native.Nat.{ℕ, compare, Ordering}
use mathlib.Core.Path.{◌≡◌, refl}
use mathlib.Core.Logic.{◌⊎◌, inl, inr, ◌↔◌}
use mathlib.Core.Bool.{Bool, true, false, ◌&&◌}
use mathlib.Core.List.{List, [], ◌∷◌}
use mathlib.Core.Option.{Option, none, some}
use native.Mathlib.Omega.{arith}

abbrev pub ltb : ℕ → ℕ → Bool
ltb a b = elim (compare a b) [ Ordering.lt ↦ true | _ ↦ false ]

abbrev pub leb : ℕ → ℕ → Bool
leb a b = elim (compare a b) [ Ordering.gt ↦ false | _ ↦ true ]

infix 50 ◌==◌
abbrev pub ◌==◌ : ℕ → ℕ → Bool
a == b = elim (compare a b) [ Ordering.eq ↦ true | _ ↦ false ]

infix 1 if◌then◌else◌
abbrev pub if◌then◌else◌ {ℓ} : {A : Type ℓ} → Bool → A → A → A
if true then x else y = x
if false then x else y = y

pub ==_iff : (a b : ℕ) → ((a == b) ≡ true) ↔ (a ≡ b)
==_iff a b = ground arith

pub Bool-cases : (b : Bool) → (b ≡ true) ⊎ (b ≡ false)
Bool-cases true = inl refl
Bool-cases false = inr refl

pub Option-cases {ℓ} : {A : Type ℓ} (o : Option A) → (o ≡ none) ⊎ ((a : A) × (o ≡ some a))
Option-cases none = inl refl
Option-cases (some a) = inr (a, refl)

pub &&-split : (a b : Bool) → (a && b) ≡ true → (a ≡ true) × (b ≡ true)
&&-split a b h = ground arith

-- A chain of `if`, `elif` and `else`: the first case whose test holds, or the last argument.
unfoldable pub first_case {ℓ} : {A : Type ℓ} → List (Bool × A) → A → A
first_case [] otherwise = otherwise
first_case ((test, a) ∷ cases) otherwise =
    let rest = first_case cases otherwise in if test then a else rest

-- What each case satisfies where its test holds, the chain satisfies.
abbrev pub AllCases {ℓ κ} : {A : Type ℓ} → (A → Type κ) → List (Bool × A) → Type κ
AllCases P [] = Unit
AllCases P ((test, a) ∷ cases) = (test ≡ true → P a) × AllCases P cases

pub first_case_ind {ℓ κ} :
    {A : Type ℓ} (P : A → Type κ) (cases : List (Bool × A)) (otherwise : A)
    → AllCases P cases
    → P otherwise
    → P (first_case cases otherwise)
unfolding first_case
first_case_ind P [] otherwise h d = d
first_case_ind P ((true, a) ∷ cases) otherwise h d = h.0 refl
first_case_ind P ((false, a) ∷ cases) otherwise h d = first_case_ind P cases otherwise h.1 d
