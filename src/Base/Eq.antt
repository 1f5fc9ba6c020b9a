-- ===== src/Base/Eq.antt =====
-- Decidable equality as an interface: Python's `==` on the values that serve as keys.
use Prim.Native.Nat.{ℕ}
use Prim.Native.String.{String}
use mathlib.Core.Path.{◌≡◌, refl}
use mathlib.Core.Logic.{◌↔◌}
use mathlib.Core.Bool.{Bool, true}
use text.Mathlib.Text.{◌==◌ as str_eq}
use text.Mathlib.TextEquality.{eq_iff}
use agent_setup.Base.Tests.{nat_beq, nat_beq_iff}

pub record Eq {κ} (K : Type κ) : Type κ where
  -- What `__eq__` returns.
  pub is_equal : K → K → Bool
  pub is_equal_iff : (k j : K) → (is_equal k j ≡ true) ↔ (k ≡ j)

instance abbrev pub text_eq : Eq String
text_eq = record { is_equal = str_eq; is_equal_iff = eq_iff }

instance abbrev pub number_eq : Eq ℕ
number_eq = record { is_equal = nat_beq; is_equal_iff = nat_beq_iff }

infix 50 ◌==◌
abbrev pub ◌==◌ {κ} : {K : Type κ} ⦃eq : Eq K⦄ → K → K → Bool
◌==◌ ⦃eq⦄ = eq.is_equal

pub ==_refl {ℓ} : {A : Type ℓ} ⦃e : Eq A⦄ (a : A) → (a == a) ≡ true
==_refl ⦃e⦄ a = (e.is_equal_iff a a).1 refl

pub ==_eq {ℓ} : {A : Type ℓ} ⦃e : Eq A⦄ (a b : A) → (a == b) ≡ true → a ≡ b
==_eq ⦃e⦄ a b = (e.is_equal_iff a b).0
