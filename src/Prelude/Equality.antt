-- ===== src/Prelude/Equality.antt =====
-- Rust's `==`, for every type that has it, and membership in a list.
use Prim.Native.Nat.{ℕ}
use Prim.Native.String.{String}
use mathlib.Core.Path.{◌≡◌, refl}
use mathlib.Core.Logic.{◌↔◌}
use mathlib.Core.Bool.{Bool, true, false, ◌&&◌, ◌||◌}
use mathlib.Core.Option.{Option, none, some}
use mathlib.Core.List.{List, [], ◌∷◌, ◌++◌}
use native.Mathlib.Omega.{arith}
use text.Mathlib.Text.{◌==◌ as str_eq}
use text.Mathlib.TextEquality.{eq_iff}
use pahoa.Prelude.Tests.{eqb, eqb_iff}
use pahoa.Prelude.Int.{ℤ, eqb_ℤ, eqb_ℤ_iff}

pub record Eq {ℓ} (A : Type ℓ) : Type ℓ where
  pub beq : A → A → Bool
  pub beq_iff : (x y : A) → (beq x y ≡ true) ↔ (x ≡ y)

abbrev pub ◌==◌ {ℓ} : {A : Type ℓ} ⦃same : Eq A⦄ → A → A → Bool
◌==◌ ⦃same⦄ = same.beq

infix 50 ◌==◌
instance abbrev pub nat_eq : Eq ℕ
nat_eq = record { beq = eqb; beq_iff = eqb_iff }

instance abbrev pub int_eq : Eq ℤ
int_eq = record { beq = eqb_ℤ; beq_iff = eqb_ℤ_iff }

instance abbrev pub string_eq : Eq String
string_eq = record { beq = str_eq; beq_iff = eq_iff }

abbrev pub eqb_Bool : Bool → Bool → Bool
eqb_Bool true b = b
eqb_Bool false true = false
eqb_Bool false false = true

pub eqb_Bool_iff : (a b : Bool) → (eqb_Bool a b ≡ true) ↔ (a ≡ b)
eqb_Bool_iff a b = ground arith

instance abbrev pub bool_eq : Eq Bool
bool_eq = record { beq = eqb_Bool; beq_iff = eqb_Bool_iff }

module _ {ℓ κ} {A : Type ℓ} {B : Type κ} ⦃ea : Eq A⦄ ⦃eb : Eq B⦄ where
  abbrev pub beq_pair : A × B → A × B → Bool
  beq_pair x y = ea.beq x.0 y.0 && eb.beq x.1 y.1

  pub beq_pair_iff : (x y : A × B) → (beq_pair x y ≡ true) ↔ (x ≡ y)
  beq_pair_iff x y = ground (arith, ea.beq_iff x.0 y.0, eb.beq_iff x.1 y.1)

  instance abbrev pub pair_eq : Eq (A × B)
  pair_eq = record { beq = beq_pair; beq_iff = beq_pair_iff }

module _ {ℓ} {A : Type ℓ} ⦃e : Eq A⦄ where
  abbrev pub beq_option : Option A → Option A → Bool
  beq_option none none = true
  beq_option (some x) (some y) = e.beq x y
  beq_option _ _ = false

  pub beq_option_iff : (x y : Option A) → (beq_option x y ≡ true) ↔ (x ≡ y)
  beq_option_iff none none = ground arith
  beq_option_iff (some x) none = ground arith
  beq_option_iff none (some y) = ground arith
  beq_option_iff (some x) (some y) = ground (arith, e.beq_iff x y)

  instance abbrev pub option_eq : Eq (Option A)
  option_eq = record { beq = beq_option; beq_iff = beq_option_iff }

module _ {ℓ} {A : Type ℓ} ⦃e : Eq A⦄ where
  pub beq_refl : (a : A) → e.beq a a ≡ true
  beq_refl a = (e.beq_iff a a).1 refl

  unfoldable pub contains : List A → A → Bool
  contains [] a = false
  contains (x ∷ xs) a = x == a || contains xs a

  pub contains-append :
      (xs ys : List A) (a : A) → contains (xs ++ ys) a ≡ (contains xs a || contains ys a)
  unfolding contains
  contains-append [] ys a = refl
  contains-append (x ∷ xs) ys a = ground (arith, contains-append xs ys a)
