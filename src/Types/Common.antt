-- ===== src/Types/Common.antt =====
-- src/exo/shared/types/common.py: identifiers are texts, compared as texts.
use agent_setup.Base.{ℕ, ◌≡◌, ◌↔◌, Bool, true, ◌&&◌, String, arith}
use agent_setup.Base.Eq.{Eq, ◌==◌, text_eq, number_eq}
use text.Mathlib.TextEquality.{eq_iff}

abbrev pub NodeId : Type 0
NodeId = String

pub record SessionId : Type 0 where
  pub master_node_id : NodeId
  pub election_clock : ℕ

abbrev session_beq : SessionId → SessionId → Bool
session_beq s t = s.master_node_id == t.master_node_id && s.election_clock == t.election_clock

pub session_beq_iff : (s t : SessionId) → (session_beq s t ≡ true) ↔ (s ≡ t)
session_beq_iff s t = ground (arith, eq_iff s.master_node_id t.master_node_id)

instance abbrev pub session_eq : Eq SessionId
session_eq = record { is_equal = session_beq; is_equal_iff = session_beq_iff }
