-- ===== src/Prelude/Tests.antt =====
-- Boolean tests, the conditional, and an interface of decidable equality.
use Prim.Native.Nat.{ℕ, compare, Ordering}
use Prim.Native.String.{String}
use mathlib.Core.Path.{◌≡◌, refl}
use mathlib.Core.Logic.{◌↔◌, ◌⊎◌, inl, inr}
use mathlib.Core.Bool.{Bool, true, false, ◌&&◌}
use mathlib.Core.Option.{Option, none, some}
use native.Mathlib.Omega.{arith}
use text.Mathlib.Text.{◌==◌ as str_eq}
use text.Mathlib.TextEquality.{eq_iff}

abbrev pub ltb : ℕ → ℕ → Bool
ltb a b = elim (compare a b) [ Ordering.lt ↦ true | _ ↦ false ]

abbrev pub leb : ℕ → ℕ → Bool
leb a b = elim (compare a b) [ Ordering.gt ↦ false | _ ↦ true ]

abbrev pub nat_eq : ℕ → ℕ → Bool
nat_eq a b = elim (compare a b) [ Ordering.eq ↦ true | _ ↦ false ]

infix 1 if◌then◌else◌
abbrev pub if◌then◌else◌ {ℓ} : {A : Type ℓ} → Bool → A → A → A
if true then x else y = x
if false then x else y = y

pub nat_eq_iff : (a b : ℕ) → (nat_eq a b ≡ true) ↔ (a ≡ b)
nat_eq_iff a b = ground arith

-- A type whose values the program compares: the test, and that it decides equality.
pub record Eq {κ} (K : Type κ) : Type κ where
  pub same : K → K → Bool
  pub same_iff : (x y : K) → (same x y ≡ true) ↔ (x ≡ y)

infix 50 ◌==◌
abbrev pub ◌==◌ {κ} : {K : Type κ} ⦃c : Eq K⦄ → K → K → Bool
◌==◌ ⦃c⦄ x y = c.same x y

instance abbrev pub Eq-ℕ : Eq ℕ
Eq-ℕ = record { same = nat_eq; same_iff = nat_eq_iff }

instance abbrev pub Eq-String : Eq String
Eq-String = record { same = str_eq; same_iff = eq_iff }

-- Equality of values that may be absent.
module _ {ℓ} {A : Type ℓ} ⦃e : Eq A⦄ where
  abbrev pub opt_eq : Option A → Option A → Bool
  opt_eq none none = true
  opt_eq (some a) (some b) = a == b
  opt_eq _ _ = false

  pub opt_eq_iff : (a b : Option A) → (opt_eq a b ≡ true) ↔ (a ≡ b)
  opt_eq_iff none none = ground arith
  opt_eq_iff none (some b) = ground arith
  opt_eq_iff (some a) none = ground arith
  opt_eq_iff (some a) (some b) = ground (arith, e.same_iff a b)

instance abbrev pub Eq-Option {ℓ} : {A : Type ℓ} ⦃e : Eq A⦄ → Eq (Option A)
Eq-Option = record { same = opt_eq; same_iff = opt_eq_iff }

abbrev pub pair_eq {ℓ κ} : {A : Type ℓ} {B : Type κ} ⦃e : Eq A⦄ ⦃f : Eq B⦄ → A × B → A × B → Bool
pair_eq a b = a.0 == b.0 && a.1 == b.1

pub pair_eq_iff {ℓ κ} :
    {A : Type ℓ} {B : Type κ} ⦃e : Eq A⦄ ⦃f : Eq B⦄ (a b : A × B) → (pair_eq a b ≡ true) ↔ (a ≡ b)
pair_eq_iff ⦃e⦄ ⦃f⦄ a b = ground (arith, e.same_iff a.0 b.0, f.same_iff a.1 b.1)

instance abbrev pub Eq-× {ℓ κ} : {A : Type ℓ} {B : Type κ} ⦃e : Eq A⦄ ⦃f : Eq B⦄ → Eq (A × B)
Eq-× = record { same = pair_eq; same_iff = pair_eq_iff }

-- To split on a computed value and keep the equation.
pub Bool-cases : (b : Bool) → (b ≡ true) ⊎ (b ≡ false)
Bool-cases true = inl refl
Bool-cases false = inr refl

pub Option-cases {ℓ} : {A : Type ℓ} (o : Option A) → (o ≡ none) ⊎ ((a : A) × (o ≡ some a))
Option-cases none = inl refl
Option-cases (some a) = inr (a, refl)

abbrev pub is_some {ℓ} : {A : Type ℓ} → Option A → Bool
is_some none = false
is_some (some a) = true

abbrev pub is_none {ℓ} : {A : Type ℓ} → Option A → Bool
is_none none = true
is_none (some a) = false
