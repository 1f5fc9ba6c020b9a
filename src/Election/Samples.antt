-- ===== src/Election/Samples.antt =====
-- The theorems on elections at concrete inputs.
use mathlib.Core.List.{Memᴰ}
use agent_setup.Base.{ℕ, ◌≡◌, refl, true, false, some, List, [], ◌∷◌, modify, get_elem?}
use agent_setup.Base.Int.{pos}
use agent_setup.Base.Result.{ok}
use agent_setup.Election.{ElectionMessage, lt, max_from, elected}
use agent_setup.Election.Order.{SameRank}
use agent_setup.Election.Agreement.{agreement}
use agent_setup.Election.Node.{
  Election, Campaign, Phase, init, start, wake, Reach, unmoved, stepped, starts, wakes, woken,
}
use agent_setup.Election.Node.Monotone.{Advances, Reach-Advances}
use agent_setup.Election.Node.Victory.{Victory, victory}

abbrev message : ℕ → ElectionMessage
message k = record {
  clock = 1;
  seniority = pos k;
  proposed_session = record { master_node_id = "n2"; election_clock = 1 };
  commands_seen = 0;
}

abbrev in_turn : List ElectionMessage
in_turn = message 0 ∷ message 2 ∷ []

abbrev reversed : List ElectionMessage
reversed = message 2 ∷ message 0 ∷ []

swap_Mem : (a b m : ElectionMessage) → Memᴰ m (a ∷ b ∷ []) → Memᴰ m (b ∷ a ∷ [])
swap_Mem a b m (Memᴰ.head e) = Memᴰ.tail (Memᴰ.head e)
swap_Mem a b m (Memᴰ.tail (Memᴰ.head e)) = Memᴰ.head e
swap_Mem a b m (Memᴰ.tail (Memᴰ.tail n)) = elim n [ ]

elected-in_turn : elected in_turn ≡ ok (message 2)
unfolding elected lt max_from
elected-in_turn = refl

elected-reversed : elected reversed ≡ ok (message 2)
unfolding elected lt max_from
elected-reversed = refl

agreement_example : SameRank (message 2) (message 2)
agreement_example =
    agreement in_turn reversed (message 2) (message 2)
      (record { to = swap_Mem (message 0) (message 2); from = swap_Mem (message 2) (message 0) })
      elected-in_turn elected-reversed

-- A node whose first campaign has slept out its timeout.
abbrev first_status : ElectionMessage
first_status = record {
  clock = 0;
  seniority = pos 0;
  proposed_session = record { master_node_id = "n1"; election_clock = 0 };
  commands_seen = 0;
}

abbrev node : Election
node = init "n1" true 0

abbrev awake : Election
awake = wake (start node 0) 0 first_status

abbrev asleep : Campaign
asleep = record {
  candidates = first_status ∷ [];
  clock = 0;
  phase = Phase.sleeping first_status;
  cancelled = false;
}

awake-Reach : Reach node awake
unfolding init start modify
awake-Reach =
    stepped (stepped unmoved (starts 0 _ refl refl)) (wakes 0 asleep first_status refl refl refl)

Reach-Advances_example : Advances node awake
Reach-Advances_example = Reach-Advances node awake awake-Reach

abbrev first_campaign : Campaign
first_campaign = record {
  candidates = first_status ∷ [];
  clock = 0;
  phase = woken first_status;
  cancelled = false;
}

awake_campaign : get_elem? awake.campaigns 0 ≡ some first_campaign
unfolding init start wake modify
awake_campaign = refl

victory_example : Victory awake 0 (first_status ∷ []) first_status
victory_example =
    victory "n1" true 0 awake 0 first_campaign first_status awake-Reach awake_campaign refl
