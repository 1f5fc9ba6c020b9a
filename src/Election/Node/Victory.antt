-- ===== src/Election/Node/Victory.antt =====
-- How a campaign ends.
use agent_setup.Base.{
  ℕ, ◌≤◌, ◌≡◌, refl, false, some, List, [], ◌∷◌, ◌++◌, arith, All, All-get, All-Mem, get_elem?,
  length, Bool, ◌⊎◌, sym, Bool-cases, inl, inr, subst, not,
}
use mathlib.Core.List.{Memᴰ}
use agent_setup.Base.Result.{ok}
use agent_setup.Types.Common.{NodeId, session_eq}
use agent_setup.Base.Eq.{◌==◌, ==_eq, text_eq}
use agent_setup.Election.{ElectionMessage, lt, max_from, elected}
use agent_setup.Election.Agreement.{IsGreatest, elected-IsGreatest}
use agent_setup.Election.Node.Invariant.{NotAfter, HasStatus, CampaignInv, init-Inv, Reach-Inv}
use agent_setup.Election.Node.{
  Election, init, Campaign, woken, Reach, finish, finalise, elect, promote,
}

-- What the end of a campaign with candidates `ms` and status `status` makes of the node `n`.
pub record Victory (n : Election) (i : ℕ) (ms : List ElectionMessage) (status : ElectionMessage)
    : Type 0 where
  pub winner : ElectionMessage
  pub after : Election
  pub returns : finish n i ms ≡ ok after
  pub greatest : IsGreatest winner ms
  pub beats_own : lt winner status ≡ false
  pub in_time : winner.clock ≤ n.clock
  pub session : after.current_session ≡ winner.proposed_session
  pub announced :
      after.results
      ≡ n.results
        ++ record {
          session_id = winner.proposed_session;
          won_clock = winner.clock;
          is_new_master = not (winner.proposed_session == n.current_session);
        }
          ∷ []
  pub kept : (winner.proposed_session.master_node_id ≡ n.node_id) ⊎ (after.seniority ≡ n.seniority)

promote_frame :
    (n : Election) (em : ElectionMessage) (votes : ℕ)
    → ((promote n em votes).results ≡ n.results)
      × ((promote n em votes).current_session ≡ n.current_session)
      × ((em.proposed_session.master_node_id ≡ n.node_id)
          ⊎ ((promote n em votes).seniority ≡ n.seniority))
unfolding promote
promote_frame n em votes = elim (Bool-cases (n.node_id == em.proposed_session.master_node_id)) [
  | inl own ↦ (ground arith, ground arith, inl (sym (==_eq _ _ own)))
  | inr other ↦ (ground arith, ground arith, inr (ground arith))
]

Victory-finish :
    (n : Election) (i : ℕ) (ms : List ElectionMessage) (status : ElectionMessage)
    → All (NotAfter n.clock) ms
    → Memᴰ status ms
    → Victory n i ms status
unfolding finish elected
Victory-finish n i [] status le m = elim m [ ]
Victory-finish n i (x ∷ xs) status le m =
    let g : IsGreatest (max_from x xs) (x ∷ xs) =
      elected-IsGreatest (x ∷ xs) (max_from x xs) refl in
    let frame = promote_frame n (max_from x xs) (length (x ∷ xs)) in
    record {
      winner = max_from x xs;
      after = finalise (elect (promote n (max_from x xs) (length (x ∷ xs))) (max_from x xs)) i;
      returns = refl;
      greatest = g;
      beats_own = g.greatest status m;
      in_time = All-Mem (NotAfter n.clock) (x ∷ xs) (max_from x xs) le g.candidate;
      session = unfold finalise elect in refl;
      announced = unfold finalise elect in rw (frame.0, frame.1);
      kept = unfold finalise elect in frame.2;
    }

-- In every state that a node can come to, a campaign that wakes up returns: it elects the greatest
-- of its candidates, which is not below the node's own status and not ahead of the node's clock,
-- makes its session the current one, announces it and tells whether it is new; only a node that
-- elected itself may change its seniority.
pub victory :
    (node_id : NodeId) (is_candidate : Bool) (k : ℕ) (n : Election) (i : ℕ) (c : Campaign)
    (status : ElectionMessage)
    → Reach (init node_id is_candidate k) n
    → get_elem? n.campaigns i ≡ some c
    → c.phase ≡ woken status
    → Victory n i c.candidates status
victory node_id is_candidate k n i c status r e p =
    let v = Reach-Inv _ n (init-Inv node_id is_candidate k) r in
    let ci = All-get (CampaignInv n.clock) n.campaigns i c v.campaigns e in
    Victory-finish n i c.candidates status ci.candidates
      (subst (λ q. HasStatus q c.candidates) p ci.status)
