-- ===== src/Election.antt =====
-- src/exo/shared/election.py: the messages of an election, their order, and the choice.
pub mod Order
pub mod Agreement
pub mod Node
mod Samples
use agent_setup.Base.{ℕ, Bool, true, false, not, List, [], ◌∷◌, String, ltb, if◌then◌else◌}
use agent_setup.Base.Int.{ℤ, ltb_ℤ, eqb_ℤ}
use agent_setup.Base.Text.{str_lt}
use agent_setup.Base.Eq.{◌==◌, number_eq}
use agent_setup.Base.Result.{Result, ok, raise, value_error}
use agent_setup.Types.Common.{NodeId, SessionId}

pub record ElectionMessage : Type 0 where
  pub clock : ℕ
  pub seniority : ℤ
  pub proposed_session : SessionId
  pub commands_seen : ℕ

-- ElectionMessage.__lt__
unfoldable pub lt : ElectionMessage → ElectionMessage → Bool
lt a b =
    if not (a.clock == b.clock)
    then ltb a.clock b.clock
    else if not (eqb_ℤ a.seniority b.seniority)
    then ltb_ℤ a.seniority b.seniority
    else if not (a.commands_seen == b.commands_seen)
    then ltb a.commands_seen b.commands_seen
    else str_lt a.proposed_session.master_node_id b.proposed_session.master_node_id

-- The loop of Python's `max`: a later item replaces the best so far only if that is below it.
unfoldable pub max_from : ElectionMessage → List ElectionMessage → ElectionMessage
max_from best [] = best
max_from best (m ∷ ms) = max_from (if lt best m then m else best) ms

-- max(candidates)
unfoldable pub elected : List ElectionMessage → Result ElectionMessage
elected [] = raise value_error
elected (m ∷ ms) = ok (max_from m ms)
