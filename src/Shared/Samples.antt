-- ===== src/Shared/Samples.antt =====
-- The theorems on the replicated state at concrete inputs.
use mathlib.Core.List.{Memᴰ}
use agent_setup.Base.{ℕ, ◌≡◌, ◌≢◌, refl, none, some, List, [], ◌∷◌, String}
use agent_setup.Base.Eq.{text_eq}
use agent_setup.Base.Dict.{get, insert}
use agent_setup.Base.Int.{pos}
use agent_setup.Base.Result.{ok}
use agent_setup.Types.Workers.{InstanceId, runner_ready}
use agent_setup.Types.Nodes.{InstanceLink, GatheredInfo}
use agent_setup.Types.Events.{Event, EventKind}
use agent_setup.Types.State.{State, initial}
use agent_setup.Shared.SampleNet.{Lists, list_net, some_memory}
use agent_setup.Shared.Apply.{
  apply, event_apply, dispatch, apply_instance_deleted, apply_node_gathered_info,
  apply_runner_status_updated,
}
use agent_setup.Shared.Apply.Gathered.{gathered}
use agent_setup.Shared.Apply.Links.{Clean, Remains, apply_instance_deleted-links}
use agent_setup.Shared.Apply.Order.{event_applier}
use agent_setup.Shared.Apply.Preserve.{WellFormed, event_applier-WellFormed}

abbrev two_links : State Lists
two_links = record (initial ([], [])) {
  instance_links =
      (
        "both",
        record {
          link_id = "both";
          prefill_instances = "a" ∷ "b" ∷ [];
          decode_instances = "c" ∷ [];
        },
      )
      ∷ (
        "one",
        record { link_id = "one"; prefill_instances = "a" ∷ []; decode_instances = "c" ∷ [] },
      )
      ∷ [];
}

apply_instance_deleted-links_example :
    (get (apply_instance_deleted "a" two_links).instances "a" ≡ none)
    × ((k : String) (link : InstanceLink)
        → Memᴰ (k, link) (apply_instance_deleted "a" two_links).instance_links
        → Clean "a" link)
    × ((k : String) (link : InstanceLink) (a b : InstanceId)
        → Memᴰ (k, link) two_links.instance_links
        → Memᴰ a link.prefill_instances
        → a ≢ "a"
        → Memᴰ b link.decode_instances
        → b ≢ "a"
        → Remains (apply_instance_deleted "a" two_links).instance_links "a" k link)
apply_instance_deleted-links_example = apply_instance_deleted-links "a" two_links

-- A node reports its memory, and a runner gets ready.
abbrev two_events : List (ℕ × Event)
two_events =
    (
      0,
      record {
        event_id = "e0";
        kind = EventKind.node_gathered_info "n" 7 (GatheredInfo.memory_usage some_memory);
      },
    )
    ∷ (
      1,
      record {
        event_id = "e1";
        kind = EventKind.runner_status_updated "r" (runner_ready (some 80));
      },
    )
    ∷ []

abbrev state_after : State Lists
state_after = record (initial ([], [])) {
  runners = ("r", runner_ready (some 80)) ∷ [];
  last_seen = ("n", 7) ∷ [];
  topology = ("n" ∷ [], []);
  last_event_applied_idx = pos 1;
  node_memory = ("n", some_memory) ∷ [];
  prefill_server_ports = ("r", 80) ∷ [];
}

two_events-applied : event_applier list_net (initial ([], [])) two_events ≡ ok state_after
unfolding event_applier apply event_apply dispatch apply_node_gathered_info gathered
    apply_runner_status_updated initial insert
two_events-applied = refl

event_applier-WellFormed_example : WellFormed state_after
event_applier-WellFormed_example =
    event_applier-WellFormed list_net two_events state_after two_events-applied
