-- ===== src/Master/Samples.antt =====
-- The theorems on the master at concrete inputs.
use mathlib.Core.List.{Memᴰ}
use agent_setup.Base.{
  ℕ, zero, suc, ◌≡◌, refl, sym, ap, true, false, Option, none, some, List, [], ◌∷◌, ◌++◌, String,
  get_elem?,
}
use agent_setup.Base.Eq.{text_eq}
use agent_setup.Base.Dict.{Dict, get, insert}
use agent_setup.Base.Int.{pos}
use agent_setup.Base.Result.{ok, ◌>>=◌}
use agent_setup.Types.Common.{NodeId, SessionId, session_eq}
use agent_setup.Types.Nodes.{GatheredInfo, NetworkInterfaceInfo, ThunderboltBridgeStatus}
use agent_setup.Types.Events.{Event, EventKind, LocalForwarderEvent}
use agent_setup.Types.State.{initial}
use agent_setup.Types.Equality.{event_eq}
use agent_setup.Shared.SampleNet.{Lists, list_net}
use agent_setup.Shared.Apply.{apply, event_apply, dispatch, apply_node_gathered_info}
use agent_setup.Shared.Apply.Gathered.{gathered}
use agent_setup.Shared.Apply.Order.{event_applier, indexed}
use agent_setup.Utils.EventBuffer.{empty}
use agent_setup.Utils.EventBuffer.Stream.{Call, arrive, release, run}
use agent_setup.Master.EventProcessor.{Master, master_init, event_processor}
use agent_setup.Master.EventProcessor.Log.{Logged}
use agent_setup.Master.EventProcessor.Streams.{FromStreams, event_processor-in_step}
use agent_setup.Shared.Apply.Bridges.{finding}
use agent_setup.Master.EventProcessor.Replica.{Delivered, replica_catches_up}

abbrev session : SessionId
session = record { master_node_id = "m"; election_clock = 3 }

abbrev bridge_on : ThunderboltBridgeStatus
bridge_on = record { enabled = true; is_present = true; service_name = none }

-- A node reports its bridge: the cycles of bridges are computed anew.
abbrev report : Event
report = record {
  event_id = "e0";
  kind = EventKind.node_gathered_info "n" 7 (GatheredInfo.thunderbolt_bridge_info bridge_on);
}

abbrev deletion : Event
deletion = record { event_id = "e1"; kind = EventKind.instance_deleted "i" }

abbrev sends : String → ℕ → Event
sends source zero = report
sends source (suc i) = deletion

-- The second event of a node, then its first, then one of another session.
abbrev three_locals : List LocalForwarderEvent
three_locals =
    record { origin_idx = 1; origin = "n"; session = session; event = deletion }
    ∷ record { origin_idx = 0; origin = "n"; session = session; event = report }
    ∷ record {
      origin_idx = 0;
      origin = "n";
      session = record { master_node_id = "old"; election_clock = 1 };
      event = deletion;
    }
    ∷ []

three_locals-FromStreams : FromStreams list_net (λ i. i) sends session three_locals
three_locals-FromStreams local (Memᴰ.head e) same = rw e
three_locals-FromStreams local (Memᴰ.tail (Memᴰ.head e)) same = rw e
three_locals-FromStreams local (Memᴰ.tail (Memᴰ.tail (Memᴰ.head e))) same =
    absurd (other (rw e at same))
  where
    other : false ≡ true → ⊥
    other p = cc
three_locals-FromStreams local (Memᴰ.tail (Memᴰ.tail (Memᴰ.tail m))) same = elim m [ ]

event_processor-in_step_example :
    (m : Master Lists) × (event_processor list_net
        (λ i. i)
        (master_init ([], []) "m" session)
        three_locals
      ≡ ok m)
    × Logged list_net m
event_processor-in_step_example =
    event_processor-in_step list_net (λ i. i) sends "m" session three_locals
      three_locals-FromStreams

-- A master that has logged one event.
abbrev one_logged : Master Lists
one_logged = record {
  node_id = "m";
  session_id = session;
  state = record (initial ([], [])) {
    last_seen = ("n", 7) ∷ [];
    topology = ("n" ∷ [], []);
    last_event_applied_idx = pos 0;
    node_thunderbolt_bridge = ("n", bridge_on) ∷ [];
  };
  multi_buffer = [];
  event_log = report ∷ [];
  pending_traces = [];
  expected_ranks = [];
  global_sent = record { origin_idx = 0; origin = "m"; session = session; event = report } ∷ [];
  local_sent = [];
}

one_logged-Logged : Logged list_net one_logged
unfolding event_applier apply event_apply dispatch apply_node_gathered_info gathered initial insert
    indexed get
one_logged-Logged = record { next = refl; replays = refl; sent = refl }

-- The entry arrives twice, with a drain between.
abbrev twice : List (Call Event)
twice = arrive 0 report ∷ release ∷ arrive 0 report ∷ []

abbrev idx_of : Call Event → ℕ
idx_of (arrive i x) = i
idx_of release = 0

abbrev event_of : Call Event → Event
event_of (arrive i x) = x
event_of release = report

abbrev entry_of : Option Event → Event
entry_of none = report
entry_of (some x) = x

the_entry : (i : ℕ) (x : Event) → arrive i x ≡ arrive 0 report → get_elem? (report ∷ []) i ≡ some x
the_entry i x e =
    let first : i ≡ 0 = ap idx_of e in
    let same : x ≡ report = ap event_of e in rw first (ap some (sym same))

twice-Delivered : Delivered list_net (report ∷ []) twice
twice-Delivered = record { sent = sent; arrived = arrived }
  where
    sent : (i : ℕ) (x : Event) → Memᴰ (arrive i x) twice → get_elem? (report ∷ []) i ≡ some x
    sent i x (Memᴰ.head e) = the_entry i x e
    sent i x (Memᴰ.tail (Memᴰ.head e)) = absurd (cc)
    sent i x (Memᴰ.tail (Memᴰ.tail (Memᴰ.head e))) = the_entry i x e
    sent i x (Memᴰ.tail (Memᴰ.tail (Memᴰ.tail m))) = elim m [ ]

    arrived : (i : ℕ) (x : Event) → get_elem? (report ∷ []) i ≡ some x → Memᴰ (arrive i x) twice
    arrived zero x h = Memᴰ.head (ap (arrive 0) (sym (ap entry_of h)))
    arrived (suc i) x h = absurd (cc)

-- A node that always finds one cycle, where `list_net` finds none: the report makes the two differ.
abbrev one_cycle :
    Lists
    → Dict NodeId ThunderboltBridgeStatus
    → Dict NodeId (List NetworkInterfaceInfo)
    → List (List NodeId)
one_cycle topology bridges network = ("n" ∷ []) ∷ []

replica_catches_up_example :
    (found : List (List NodeId)) × ((run empty [] (twice ++ release ∷ []) >>= λ r.
    event_applier (finding list_net one_cycle) (initial ([], [])) r.0)
      ≡ ok (record one_logged.state { thunderbolt_bridge_cycles = found }))
replica_catches_up_example =
    replica_catches_up list_net one_cycle one_logged twice one_logged-Logged twice-Delivered
