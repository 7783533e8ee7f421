-- ===== src/Prelude/Keys.antt =====
-- Equality tests as an interface, for the keys of maps and the values that the code compares.
use Prim.Native.Nat.{ℕ}
use Prim.Native.String.{String}
use mathlib.Core.Path.{◌≡◌, refl}
use mathlib.Core.Logic.{◌↔◌, ◌≢◌, ◌⊎◌}
use mathlib.Core.Bool.{Bool, true, false}
use native.Mathlib.Omega.{arith}
use rock_paper_money.Prelude.Tests.{nat_beq, nat_beq_iff}
use text.Mathlib.TextEquality.{eq_iff as text_beq_iff}
use text.Mathlib.Text.{◌==◌ as text_beq}

pub record Eq {ℓ} (Key : Type ℓ) : Type ℓ where
  -- `==` of the Go type, and what it decides.
  pub beq : Key → Key → Bool
  pub beq_iff : (left right : Key) → (beq left right ≡ true) ↔ (left ≡ right)

infix 50 ◌==◌ ◌/=◌
abbrev pub ◌==◌ {ℓ} : {Key : Type ℓ} ⦃test : Eq Key⦄ → Key → Key → Bool
◌==◌ ⦃test⦄ = test.beq

-- `!=`
abbrev pub ◌/=◌ {ℓ} : {Key : Type ℓ} ⦃test : Eq Key⦄ → Key → Key → Bool
left /= right = elim (left == right) [ true ↦ false | false ↦ true ]

instance abbrev pub nat_eq : Eq ℕ
nat_eq = record { beq = nat_beq; beq_iff = nat_beq_iff }

abbrev pub bool_beq : Bool → Bool → Bool
bool_beq true b = b
bool_beq false true = false
bool_beq false false = true

pub bool_beq_iff : (a b : Bool) → (bool_beq a b ≡ true) ↔ (a ≡ b)
bool_beq_iff a b = ground arith

instance abbrev pub bool_eq : Eq Bool
bool_eq = record { beq = bool_beq; beq_iff = bool_beq_iff }

instance abbrev pub string_eq : Eq String
string_eq = record { beq = text_beq; beq_iff = text_beq_iff }

module _ {ℓ} {A : Type ℓ} ⦃e : Eq A⦄ where
  pub ==_refl : (a : A) → (a == a) ≡ true
  ==_refl a = (e.beq_iff a a).1 refl

  pub ==_of_eq : {a b : A} → a ≡ b → (a == b) ≡ true
  ==_of_eq {a} {b} h = (e.beq_iff a b).1 h

  pub ==_of_ne : (a b : A) → a ≢ b → (a == b) ≡ false
  ==_of_ne a b h = ground (arith, e.beq_iff a b)

  pub ==_sym : (a b : A) → (a == b) ≡ (b == a)
  ==_sym a b = ground (arith, e.beq_iff a b, e.beq_iff b a)

  -- A test decides the equation of its sides.
  pub Eq-cases : (a b : A) → ((a == b) ≡ true) × (a ≡ b) ⊎ ((a == b) ≡ false) × (a ≢ b)
  Eq-cases a b = ground (arith, e.beq_iff a b)
