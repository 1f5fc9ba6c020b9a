-- ===== src/Election/Node.antt =====
-- src/exo/shared/election.py, class `Election`: the state of one node, the bodies of its four
-- tasks cut at their awaits, and the steps that the event loop may take in any order.
--
-- A candidates list is an object that a campaign and `self._candidates` share, so it stands in the
-- campaign and `candidates_of` says which campaign's list `self._candidates` is. Each list is made
-- together with its campaign. Campaigns are numbered in the order in which they are spawned.
pub mod Monotone
pub mod Invariant
pub mod Victory
use agent_setup.Base.{
  ℕ, ◌+◌, ◌≡◌, Bool, true, false, not, ◌&&◌, Option, none, some, List, [], ◌∷◌, ◌++◌, ltb, leb,
  length, get_elem?, modify, if◌then◌else◌,
}
use agent_setup.Base.Int.{ℤ, pos, negsuc, ltb_ℤ}
use agent_setup.Base.Eq.{◌==◌, number_eq, text_eq}
use agent_setup.Base.Result.{Result, ok, raise, ◌>>=◌}
use agent_setup.Types.Common.{NodeId, SessionId, session_eq}
use agent_setup.Election.{ElectionMessage, elected}

pub record ElectionResult : Type 0 where
  pub session_id : SessionId
  pub won_clock : ℕ
  pub is_new_master : Bool

-- Where a campaign task stands: not yet run, waiting for another campaign's `done` event, asleep
-- for the timeout, past it with the rebroadcast sent, or at its end with its own event set.
pub data Phase : Type 0 where
  spawned : Phase
  waiting : ℕ → Phase
  sleeping : ElectionMessage → Phase
  woken : ElectionMessage → Phase
  done : Phase

pub record Campaign : Type 0 where
  pub candidates : List ElectionMessage
  pub clock : ℕ
  pub phase : Phase
  pub cancelled : Bool

pub record Election : Type 0 where
  pub node_id : NodeId
  pub seniority : ℤ
  pub clock : ℕ
  pub commands_seen : ℕ
  pub current_session : SessionId
  pub campaigns : List Campaign
  pub candidates_of : ℕ
  pub cancel_scope : Option ℕ
  pub campaign_done : Option ℕ
  pub sent : List ElectionMessage
  pub results : List ElectionResult

abbrev fresh : List ElectionMessage → Campaign
fresh candidates = record { candidates = candidates; clock = 0; phase = spawned; cancelled = false }

-- __init__, and the first campaign that `run` begins.
unfoldable pub init : NodeId → Bool → ℕ → Election
init node_id is_candidate seniority = record {
  node_id = node_id;
  seniority = if is_candidate then pos seniority else negsuc 0;
  clock = 0;
  commands_seen = 0;
  current_session = record { master_node_id = node_id; election_clock = 0 };
  campaigns = fresh [] ∷ [];
  candidates_of = 0;
  cancel_scope = none;
  campaign_done = none;
  sent = [];
  results = [];
}

-- self._tg.start_soon(self._campaign, candidates, …)
spawn : Election → List ElectionMessage → Election
spawn n candidates = record n {
  candidates_of = length n.campaigns;
  campaigns = n.campaigns ++ fresh candidates ∷ [];
}

add_candidate : ElectionMessage → Campaign → Campaign
add_candidate m c = record c { candidates = c.candidates ++ m ∷ [] }

-- _election_receiver, for one message.
unfoldable pub receive : Election → ElectionMessage → Election
unfolding spawn add_candidate
receive n m =
    if m.proposed_session.master_node_id == n.node_id
    then n
    else if ltb n.clock m.clock
    then spawn (record n { clock = m.clock }) (m ∷ [])
    else if ltb m.clock n.clock
    then n
    else record n { campaigns = modify n.campaigns n.candidates_of (add_candidate m) }

-- _connection_receiver, after its delay.
unfoldable pub connect : Election → Election
unfolding spawn
connect n = spawn (record n { clock = n.clock + 1 }) []

-- _command_counter, for one command.
unfoldable pub count_command : Election → Election
count_command n = record n { commands_seen = n.commands_seen + 1 }

-- _election_status(clock)
unfoldable pub election_status : Election → ℕ → ElectionMessage
election_status n clock = record {
  clock = clock;
  seniority = n.seniority;
  proposed_session =
      if n.current_session.master_node_id == n.node_id
      then n.current_session
      else (record { master_node_id = n.node_id; election_clock = clock });
  commands_seen = n.commands_seen;
}

cancel : Campaign → Campaign
cancel c = record c { cancelled = true }

cancel_old : List Campaign → Option ℕ → List Campaign
unfolding cancel
cancel_old campaigns none = campaigns
cancel_old campaigns (some scope) = modify campaigns scope cancel

begin_sleep : ElectionMessage → Campaign → Campaign
unfolding add_candidate
begin_sleep status c = record (add_candidate status c) { phase = sleeping status }

-- _campaign, from the end of the wait for the old campaign to the sleep: the new event and scope
-- are stored, the status joins the candidates and is sent.
unfoldable pub enter : Election → ℕ → ℕ → Election
unfolding begin_sleep election_status
enter n i clock =
    let status = election_status n clock in
    record n {
      campaign_done = some i;
      cancel_scope = some i;
      campaigns = modify n.campaigns i (begin_sleep status);
      sent = n.sent ++ status ∷ [];
    }

begin_wait : ℕ → Option ℕ → Campaign → Campaign
begin_wait clock none c = record c { clock = clock }
begin_wait clock (some old) c = record c { clock = clock; phase = waiting old }

-- _campaign, from its first line to the wait for the old campaign, or on if there is none.
unfoldable pub start : Election → ℕ → Election
unfolding cancel_old begin_wait enter
start n i =
    let n' = record n {
      campaigns =
          modify (cancel_old n.campaigns n.cancel_scope) i (begin_wait n.clock n.campaign_done);
    } in
    elim n.campaign_done [ none ↦ enter n' i n.clock | some old ↦ n' ]

wake_up : ElectionMessage → Campaign → Campaign
wake_up status c = record c { phase = woken status }

-- _campaign, from the sleep to the checkpoint behind it: the status is sent once more.
unfoldable pub wake : Election → ℕ → ElectionMessage → Election
unfolding wake_up
wake n i status = record n {
  campaigns = modify n.campaigns i (wake_up status);
  sent = n.sent ++ status ∷ [];
}

end_campaign : Campaign → Campaign
end_campaign c = record c { phase = done }

clear_scope : Option ℕ → ℕ → Option ℕ
clear_scope none i = none
clear_scope (some scope) i = if scope == i then none else some scope

-- The `finally` block of _campaign.
unfoldable pub finalise : Election → ℕ → Election
unfolding end_campaign clear_scope
finalise n i = record n {
  campaigns = modify n.campaigns i end_campaign;
  cancel_scope = clear_scope n.cancel_scope i;
}

-- elect(em)
unfoldable pub elect : Election → ElectionMessage → Election
elect n em = record n {
  current_session = em.proposed_session;
  results =
      n.results
      ++ record {
        session_id = em.proposed_session;
        won_clock = em.clock;
        is_new_master = not (em.proposed_session == n.current_session);
      }
        ∷ [];
}

abbrev max_ℤ : ℤ → ℤ → ℤ
max_ℤ a b = if ltb_ℤ a b then b else a

-- The node takes the seniority of its victory if it won and is a candidate.
unfoldable pub promote : Election → ElectionMessage → ℕ → Election
promote n em votes =
    if (n.node_id == em.proposed_session.master_node_id) && not (ltb_ℤ n.seniority (pos 0))
    then record n { seniority = max_ℤ n.seniority (pos votes) }
    else n

-- _campaign, from the checkpoint to its end.
unfoldable pub finish : Election → ℕ → List ElectionMessage → Result Election
finish n i candidates = do
  em ← elected candidates
  ok (finalise (elect (promote n em (length candidates)) em) i)

-- What the event loop may do next.
pub data Step (n : Election) : Election → Type 0 where
  receives : (m : ElectionMessage) → Step n (receive n m)
  connects : Step n (connect n)
  counts : Step n (count_command n)
  starts :
      (i : ℕ) (c : Campaign)
      → get_elem? n.campaigns i ≡ some c
      → c.phase ≡ spawned
      → Step n (start n i)
  enters :
      (i old : ℕ) (c d : Campaign)
      → get_elem? n.campaigns i ≡ some c
      → c.phase ≡ waiting old
      → get_elem? n.campaigns old ≡ some d
      → d.phase ≡ done
      → Step n (enter n i c.clock)
  wakes :
      (i : ℕ) (c : Campaign) (status : ElectionMessage)
      → get_elem? n.campaigns i ≡ some c
      → c.phase ≡ sleeping status
      → c.cancelled ≡ false
      → Step n (wake n i status)
  finishes :
      (i : ℕ) (c : Campaign) (status : ElectionMessage) (n' : Election)
      → get_elem? n.campaigns i ≡ some c
      → c.phase ≡ woken status
      → c.cancelled ≡ false
      → finish n i c.candidates ≡ ok n'
      → Step n n'
  aborts_asleep :
      (i : ℕ) (c : Campaign) (status : ElectionMessage)
      → get_elem? n.campaigns i ≡ some c
      → c.phase ≡ sleeping status
      → c.cancelled ≡ true
      → Step n (finalise n i)
  aborts_awake :
      (i : ℕ) (c : Campaign) (status : ElectionMessage)
      → get_elem? n.campaigns i ≡ some c
      → c.phase ≡ woken status
      → c.cancelled ≡ true
      → Step n (finalise n i)

-- The states that the node can come to from `n`.
pub data Reach (first : Election) : Election → Type 0 where
  unmoved : Reach first first
  stepped : {n n' : Election} → Reach first n → Step n n' → Reach first n'
