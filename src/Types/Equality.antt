-- ===== src/Types/Equality.antt =====
-- Events are values: `==` compares their fields.
use native.Mathlib.Decide.{ℕ_discrete}
use mathlib.Core.Path.{◌≡◌, refl}
use mathlib.Core.Logic.{inl, inr}
use agent_setup.Base.{Bool, true, false, ◌↔◌, String, Bool-cases, arith}
use agent_setup.Base.Eq.{Eq, ◌==◌, text_eq, ==_eq}
use agent_setup.Types.Events.{Event, EventKind}

string_discrete : Discrete String
string_discrete s t = elim (Bool-cases (s == t)) [
  | inl same ↦ yes (==_eq s t same)
  | inr apart ↦ no (λ p. absurd (ground (arith, text_eq.is_equal_iff s t)))
]

kind_discrete : Discrete EventKind
kind_discrete = hlevel (ℕ_discrete, string_discrete)

abbrev pub is_yes {ℓ} : {A : Type ℓ} → Dec A → Bool
is_yes (yes a) = true
is_yes (no n) = false

pub yes_iff {ℓ} : {A : Type ℓ} (d : Dec A) → (is_yes d ≡ true) ↔ A
yes_iff (yes a) = (λ h. a, λ a'. refl)
yes_iff (no n) = (λ h. absurd (ground arith), λ a. absurd (n a))

pub event_discrete : Discrete Event
event_discrete = hlevel (kind_discrete, string_discrete)

instance abbrev pub event_eq : Eq Event
event_eq = record {
  is_equal = λ a b. is_yes (event_discrete a b);
  is_equal_iff = λ a b. yes_iff (event_discrete a b);
}
