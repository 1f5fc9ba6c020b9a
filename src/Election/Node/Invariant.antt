-- ===== src/Election/Node/Invariant.antt =====
-- The invariant of a node's campaigns: their candidates are not ahead of the node's clock, and one
-- that has sent its status has it among them.
use agent_setup.Base.{
  ℕ, ◌+◌, ◌≤◌, ◌≡◌, some, none, List, [], ◌∷◌, ◌++◌, arith, All, All-append, All-map, All-modify,
  All-get, Mem-append_left, Mem-append_last, modify, get_elem?, length, Bool, Bool-cases, inl, inr,
  ltb, Option, subst, ap, ◌∙◌, not, ◌&&◌,
}
use mathlib.Core.List.{Memᴰ}
use agent_setup.Base.Int.{pos, ltb_ℤ}
use agent_setup.Base.Result.{Result, ok, raise, ◌>>=◌}
use agent_setup.Types.Common.{NodeId, session_eq}
use agent_setup.Base.Eq.{◌==◌, text_eq}
use agent_setup.Election.{ElectionMessage, elected}
use agent_setup.Election.Node.{
  Election, init, Campaign, Phase, spawned, waiting, sleeping, woken, done, Step, receives,
  connects, counts, starts, enters, wakes, finishes, aborts_asleep, aborts_awake, Reach, unmoved,
  stepped, receive, connect, count_command, start, enter, wake, finish, finalise, elect, promote,
  election_status, fresh, spawn, add_candidate, cancel, cancel_old, begin_sleep, begin_wait,
  wake_up, end_campaign,
}

-- A campaign that has sent its status has it among its candidates.
abbrev pub HasStatus : Phase → List ElectionMessage → Type 0
HasStatus (sleeping status) candidates = Memᴰ status candidates
HasStatus (woken status) candidates = Memᴰ status candidates
HasStatus _ candidates = Unit

abbrev pub NotAfter : ℕ → ElectionMessage → Type 0
NotAfter clock m = m.clock ≤ clock

pub record CampaignInv (clock : ℕ) (c : Campaign) : Type 0 where
  pub candidates : All (NotAfter clock) c.candidates
  pub clock_le : c.clock ≤ clock
  pub status : HasStatus c.phase c.candidates

pub record Inv (n : Election) : Type 0 where
  pub campaigns : All (CampaignInv n.clock) n.campaigns

CampaignInv-mono : (a b : ℕ) (c : Campaign) → a ≤ b → CampaignInv a c → CampaignInv b c
CampaignInv-mono a b c le v = record {
  candidates = All-map (NotAfter a) (NotAfter b) c.candidates (λ m h. omega arith) v.candidates;
  clock_le = omega (arith, v.clock_le);
  status = v.status;
}

campaigns_mono :
    (a b : ℕ) (cs : List Campaign) → a ≤ b → All (CampaignInv a) cs → All (CampaignInv b) cs
campaigns_mono a b cs le h =
    All-map (CampaignInv a) (CampaignInv b) cs (λ c. CampaignInv-mono a b c le) h

fresh-Inv : (k : ℕ) (ms : List ElectionMessage) → All (NotAfter k) ms → CampaignInv k (fresh ms)
fresh-Inv k ms h = record { candidates = h; clock_le = omega arith; status = tt }

spawn-Inv :
    (n : Election) (ms : List ElectionMessage)
    → All (NotAfter n.clock) ms
    → Inv n
    → Inv (spawn n ms)
unfolding spawn
spawn-Inv n ms h v = record {
  campaigns =
      All-append (CampaignInv n.clock) n.campaigns (fresh ms ∷ []) v.campaigns
        (fresh-Inv n.clock ms h, tt);
}

HasStatus-append :
    (p : Phase) (ms : List ElectionMessage) (m : ElectionMessage)
    → HasStatus p ms
    → HasStatus p (ms ++ m ∷ [])
HasStatus-append spawned ms m h = tt
HasStatus-append (waiting old) ms m h = tt
HasStatus-append (sleeping status) ms m h = Mem-append_left status ms (m ∷ []) h
HasStatus-append (woken status) ms m h = Mem-append_left status ms (m ∷ []) h
HasStatus-append done ms m h = tt

add_candidate-Inv :
    (k : ℕ) (m : ElectionMessage) (c : Campaign)
    → m.clock ≤ k
    → CampaignInv k c
    → CampaignInv k (add_candidate m c)
unfolding add_candidate
add_candidate-Inv k m c le v = record {
  candidates = All-append (NotAfter k) c.candidates (m ∷ []) v.candidates (le, tt);
  clock_le = v.clock_le;
  status = HasStatus-append c.phase c.candidates m v.status;
}

receive-Inv : (n : Election) (m : ElectionMessage) → Inv n → Inv (receive n m)
unfolding receive
receive-Inv n m v = elim (Bool-cases (m.proposed_session.master_node_id == n.node_id)) [
  | inl own ↦ rw own v
  | inr other ↦ elim (Bool-cases (ltb n.clock m.clock)) [
    | inl newer ↦
        rw (other, newer)
          (spawn-Inv (record n { clock = m.clock }) (m ∷ []) (omega arith, tt)
            (record {
              campaigns = campaigns_mono n.clock m.clock n.campaigns (ground arith) v.campaigns;
            }))
    | inr not_newer ↦ elim (Bool-cases (ltb m.clock n.clock)) [
      | inl older ↦ rw (other, not_newer, older) v
      | inr same ↦
          rw (other, not_newer, same)
            (record {
              campaigns =
                  All-modify (CampaignInv n.clock) n.campaigns n.candidates_of (add_candidate m)
                    (λ c _. add_candidate-Inv n.clock m c (ground arith)) v.campaigns;
            })
    ]
  ]
]

cancel_old-Inv :
    (k : ℕ) (cs : List Campaign) (scope : Option ℕ)
    → All (CampaignInv k) cs
    → All (CampaignInv k) (cancel_old cs scope)
unfolding cancel_old
cancel_old-Inv k cs none h = h
cancel_old-Inv k cs (some scope) h =
    All-modify (CampaignInv k) cs scope cancel
      (λ c _ v. record { candidates = v.candidates; clock_le = v.clock_le; status = v.status }) h

begin_sleep-Inv :
    (k : ℕ) (status : ElectionMessage) (c : Campaign)
    → status.clock ≤ k
    → CampaignInv k c
    → CampaignInv k (begin_sleep status c)
unfolding begin_sleep add_candidate
begin_sleep-Inv k status c le v = record {
  candidates = All-append (NotAfter k) c.candidates (status ∷ []) v.candidates (le, tt);
  clock_le = v.clock_le;
  status = Mem-append_last status c.candidates;
}

enter-Inv : (n : Election) (i clock : ℕ) → clock ≤ n.clock → Inv n → Inv (enter n i clock)
unfolding enter
enter-Inv n i clock le v = record {
  campaigns =
      All-modify (CampaignInv n.clock) n.campaigns i (begin_sleep (election_status n clock))
        (λ c _. begin_sleep-Inv n.clock (election_status n clock) c (unfold election_status in le))
        v.campaigns;
}

begin_wait-Inv :
    (k : ℕ) (old : Option ℕ) (c : Campaign) → CampaignInv k c → CampaignInv k (begin_wait k old c)
unfolding begin_wait
begin_wait-Inv k none c v = record {
  candidates = v.candidates;
  clock_le = omega arith;
  status = v.status;
}
begin_wait-Inv k (some old) c v = record {
  candidates = v.candidates;
  clock_le = omega arith;
  status = tt;
}

waited-Inv :
    (n : Election) (i clock : ℕ) (old : Option ℕ)
    → clock ≤ n.clock
    → Inv n
    → Inv (elim old [ none ↦ enter n i clock | some d ↦ n ])
waited-Inv n i clock none le v = enter-Inv n i clock le v
waited-Inv n i clock (some old) le v = v

start-Inv : (n : Election) (i : ℕ) → Inv n → Inv (start n i)
unfolding start
start-Inv n i v = waited-Inv _ i n.clock n.campaign_done (omega arith) (record {
  campaigns =
      All-modify (CampaignInv n.clock) (cancel_old n.campaigns n.cancel_scope) i
        (begin_wait n.clock n.campaign_done) (λ c _. begin_wait-Inv n.clock n.campaign_done c)
        (cancel_old-Inv n.clock n.campaigns n.cancel_scope v.campaigns);
})

wake-Inv :
    (n : Election) (i : ℕ) (c : Campaign) (status : ElectionMessage)
    → get_elem? n.campaigns i ≡ some c
    → c.phase ≡ sleeping status
    → Inv n
    → Inv (wake n i status)
unfolding wake wake_up
wake-Inv n i c status e p v = record {
  campaigns =
      All-modify (CampaignInv n.clock) n.campaigns i (wake_up status)
        (λ d f w. record {
          candidates = w.candidates;
          clock_le = w.clock_le;
          status =
              let same : d ≡ c = ground arith in
              subst (λ q. HasStatus q d.candidates) (ap (λ (x : Campaign). x.phase) same ∙ p)
                w.status;
        })
        v.campaigns;
}

end_campaign-Inv :
    (k i : ℕ) (cs : List Campaign)
    → All (CampaignInv k) cs
    → All (CampaignInv k) (modify cs i end_campaign)
unfolding end_campaign
end_campaign-Inv k i cs =
    All-modify (CampaignInv k) cs i end_campaign
      (λ c _ w. record { candidates = w.candidates; clock_le = w.clock_le; status = tt })

finalise-Inv : (n : Election) (i : ℕ) → Inv n → Inv (finalise n i)
unfolding finalise
finalise-Inv n i v = record { campaigns = end_campaign-Inv n.clock i n.campaigns v.campaigns }

promote-Inv : (n : Election) (em : ElectionMessage) (votes : ℕ) → Inv n → Inv (promote n em votes)
unfolding promote
promote-Inv n em votes v =
    elim (Bool-cases
      ((n.node_id == em.proposed_session.master_node_id) && not (ltb_ℤ n.seniority (pos 0)))) [
        | inl won ↦ rw won (record { campaigns = v.campaigns })
        | inr lost ↦ rw lost v
      ]

finish-Inv :
    (n n' : Election) (i : ℕ) (candidates : List ElectionMessage)
    → finish n i candidates ≡ ok n'
    → Inv n
    → Inv n'
unfolding finish
finish-Inv n n' i candidates h v = at_choice (elected candidates) h
  where
    at_choice :
        (r : Result ElectionMessage)
        → (r >>= λ em. ok (finalise (elect (promote n em (length candidates)) em) i)) ≡ ok n'
        → Inv n'
    at_choice (raise x) g = absurd (ground arith)
    at_choice (ok em) g =
        let e : finalise (elect (promote n em (length candidates)) em) i ≡ n' = ground arith in
        subst Inv e (
          finalise-Inv _ i (
            unfold elect in
            record { campaigns = (promote-Inv n em (length candidates) v).campaigns }))

Step-Inv : {n n' : Election} → Step n n' → Inv n → Inv n'
Step-Inv {n} (receives m) v = receive-Inv n m v
Step-Inv {n} connects v =
    unfold connect in
    spawn-Inv (record n { clock = n.clock + 1 }) [] tt
      (record {
        campaigns = campaigns_mono n.clock (n.clock + 1) n.campaigns (omega arith) v.campaigns;
      })
Step-Inv {n} counts v = unfold count_command in record { campaigns = v.campaigns }
Step-Inv {n} (starts i c e p) v = start-Inv n i v
Step-Inv {n} (enters i old c d e p f q) v =
    enter-Inv n i c.clock (All-get (CampaignInv n.clock) n.campaigns i c v.campaigns e).clock_le v
Step-Inv {n} (wakes i c status e p q) v = wake-Inv n i c status e p v
Step-Inv {n} (finishes i c status n' e p q h) v = finish-Inv n n' i c.candidates h v
Step-Inv {n} (aborts_asleep i c status e p q) v = finalise-Inv n i v
Step-Inv {n} (aborts_awake i c status e p q) v = finalise-Inv n i v

pub init-Inv : (node_id : NodeId) (is_candidate : Bool) (k : ℕ) → Inv (init node_id is_candidate k)
unfolding init
init-Inv node_id is_candidate k = record {
  campaigns = (record { candidates = tt; clock_le = omega arith; status = tt }, tt);
}

pub Reach-Inv : (n n' : Election) → Inv n → Reach n n' → Inv n'
Reach-Inv n n' v unmoved = v
Reach-Inv n n' v (stepped {n = m} r step) = Step-Inv step (Reach-Inv n m v r)
