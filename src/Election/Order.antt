-- ===== src/Election/Order.antt =====
-- `__lt__` is a strict order in which two messages are incomparable only if they agree in the
-- clock, the seniority, the number of commands seen and the proposed master.
use agent_setup.Base.{◌≡◌, true, false, arith, String, inl, inr, Bool-cases}
use agent_setup.Base.Text.{str_lt_trans, str_lt_asym, str_lt_total}
use agent_setup.Election.{ElectionMessage, lt}

abbrev pub master : ElectionMessage → String
master m = m.proposed_session.master_node_id

pub lt_trans : (a b c : ElectionMessage) → lt a b ≡ true → lt b c ≡ true → lt a c ≡ true
unfolding lt
lt_trans a b c h g = ground (arith, str_lt_trans (master a) (master b) (master c))

pub lt_asym : (a b : ElectionMessage) → lt a b ≡ true → lt b a ≡ false
unfolding lt
lt_asym a b h = ground (arith, str_lt_asym (master a) (master b))

pub lt_irrefl : (a : ElectionMessage) → lt a a ≡ false
lt_irrefl a = ground (arith, lt_asym a a)

-- The parts of a message that the order reads.
pub record SameRank (a b : ElectionMessage) : Type 0 where
  pub clock : a.clock ≡ b.clock
  pub seniority : a.seniority ≡ b.seniority
  pub commands_seen : a.commands_seen ≡ b.commands_seen
  pub same_master : master a ≡ master b

pub lt_total : (a b : ElectionMessage) → lt a b ≡ false → lt b a ≡ false → SameRank a b
unfolding lt
lt_total a b h g = ground (arith, str_lt_total (master a) (master b))

lt-SameRank : (a b c : ElectionMessage) → SameRank b c → lt a c ≡ true → lt a b ≡ true
unfolding lt
lt-SameRank a b c r h = ground arith

pub lt-le_trans : (a b c : ElectionMessage) → lt a c ≡ true → lt b c ≡ false → lt a b ≡ true
lt-le_trans a b c h g = elim (Bool-cases (lt c b)) [
  | inl below ↦ lt_trans a c b h below
  | inr same ↦ lt-SameRank a b c (lt_total b c g same) h
]
