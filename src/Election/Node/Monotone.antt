-- ===== src/Election/Node/Monotone.antt =====
-- What a node's election never lowers.
use agent_setup.Base.{ℕ, ◌≤◌, ◌≡◌, List, arith}
use agent_setup.Base.Int.{negsuc, ◌≤ℤ◌}
use agent_setup.Base.Result.{ok}
use agent_setup.Types.Common.{session_eq}
use agent_setup.Base.Eq.{text_eq}
use agent_setup.Election.{ElectionMessage}
use agent_setup.Election.Node.{
  Election, Step, receives, connects, counts, starts, enters, wakes, finishes, aborts_asleep,
  aborts_awake, Reach, unmoved, stepped, receive, connect, count_command, start, enter, wake,
  finish, finalise, elect, promote,
}

-- What one call leaves and what it may only raise.
pub record Advances (n n' : Election) : Type 0 where
  pub node_id : n'.node_id ≡ n.node_id
  pub clock : n.clock ≤ n'.clock
  pub commands_seen : n.commands_seen ≤ n'.commands_seen
  pub seniority : n.seniority ≤ℤ n'.seniority
  pub bystander : n.seniority ≡ negsuc 0 → n'.seniority ≡ negsuc 0

receive-Advances : (n : Election) (m : ElectionMessage) → Advances n (receive n m)
unfolding receive
receive-Advances n m = ground arith

start-Advances : (n : Election) (i : ℕ) → Advances n (start n i)
unfolding start enter
start-Advances n i = ground arith

promote-Advances :
    (n : Election) (em : ElectionMessage) (votes : ℕ) → Advances n (promote n em votes)
unfolding promote
promote-Advances n em votes = ground arith

finish-Advances :
    (n n' : Election) (i : ℕ) (candidates : List ElectionMessage)
    → finish n i candidates ≡ ok n'
    → Advances n n'
unfolding finish finalise elect promote
finish-Advances n n' i candidates h = ground arith

Step-Advances : {n n' : Election} → Step n n' → Advances n n'
Step-Advances {n} (receives m) = receive-Advances n m
Step-Advances {n} connects = unfold connect in ground arith
Step-Advances {n} counts = unfold count_command in ground arith
Step-Advances {n} (starts i c e p) = start-Advances n i
Step-Advances {n} (enters i old c d e p f q) = unfold enter in ground arith
Step-Advances {n} (wakes i c status e p q) = unfold wake in ground arith
Step-Advances {n} (finishes i c status n' e p q h) = finish-Advances n n' i c.candidates h
Step-Advances {n} (aborts_asleep i c status e p q) = unfold finalise in ground arith
Step-Advances {n} (aborts_awake i c status e p q) = unfold finalise in ground arith

Advances-trans : (a b c : Election) → Advances a b → Advances b c → Advances a c
Advances-trans a b c h g = ground arith

-- Whatever the event loop does, a node's clock, its count of commands and its seniority never
-- fall, its identity stays, and a node that is no candidate (seniority -1) stays one.
pub Reach-Advances : (n n' : Election) → Reach n n' → Advances n n'
Reach-Advances n n' unmoved = ground arith
Reach-Advances n n' (stepped {n = m} r step) =
    Advances-trans n m n' (Reach-Advances n m r) (Step-Advances step)
