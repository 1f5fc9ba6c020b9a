-- ===== src/Lib.antt =====
-- Agent-setup: a verification library for the exo cluster runtime of this repository.
--
-- The repository runs a cluster of machines on which one master indexes the events of all nodes
-- and every node applies them, in order, to a replicated state. Paths below are from the root.
--
-- Base: what the modules share. Base.Dict is Python's `dict` (insertion order kept), Base.Result
--   is code that may raise, Base.Text is the order of `str`, Base.Int is `int` below zero.
-- Types: src/exo/shared/types, the data that the components exchange. Identifiers (`Id(str)`) are
--   texts, compared as texts. Types.State is the replicated state, Types.Events the events,
--   Types.Equality their `==`.
-- Utils.EventBuffer: src/exo/utils/event_buffer.py. `ingest`, `drain_indexed`, `drain` are the
--   methods of `OrderedBuffer`, `multi_ingest` and `multi_drain` those of `MultiSourceBuffer`. The
--   `while` loop of a drain takes the number of stored events as fuel; each round removes one.
-- Utils.KeyedBackoff: src/exo/utils/keyed_backoff.py. Times are whole numbers of some unit; a power
--   of two that no float holds raises.
-- Utils.DiskEventLog: src/exo/utils/disk_event_log.py; Utils.Frames has the lengths in four bytes
--   that it shares with the protocol below. The file is the list of its bytes.
-- Routing.EventRouter: src/exo/routing/event_router.py, a round of each task as one step.
-- Election: src/exo/shared/election.py. `Election` has the messages and their order,
--   `Election.Node` one node: the bodies of its tasks, cut where they await, are functions, and
--   `Step` lets the event loop take any of them next. A send on a channel is one step with the code
--   around it. Clocks and counts of commands are natural numbers, a seniority may be -1.
-- Shared.Apply: src/exo/shared/apply.py, one function for each `apply_*`, `event_apply` and `apply`;
--   Shared.Apply.Gathered is `apply_node_gathered_info`. The class `Topology` is an interface of
--   operations, Shared.Interface, since it stands on a graph library outside the repository; the
--   cycles of bridges that it finds may differ between processes. `when`
--   is the instant that the text of an event denotes. Shared.Apply.Order has
--   `Worker._event_applier` of src/exo/worker/main.py, as far as it applies events.
-- Master.EventProcessor: src/exo/master/main.py, `_event_processor`, `_send_event` and the handling
--   of traces. The readings of the clock are a function of the index that the event gets; the
--   log is the list of what was appended.
-- Master.Placement: src/exo/master/placement_utils.py (Cycles, Allocation, Shards, Hosts) and
--   src/exo/master/placement.py (Choice, Transitions). Floats are an interface of operations.
-- Master.InstanceChoice, Master.CommandProcessor: src/exo/master/main.py, `_command_processor` and
--   `_prefill_endpoint_for`. What the code draws at random or reads from the environment is an
--   argument; a handler returns the master, the events that it sends and whether it raised.
-- Master.PlanLoop: the two loops of `_plan` of the same file.
-- Master.ImageStore: src/exo/master/image_store.py.
-- Worker.Plan: src/exo/worker/plan.py. A planner's loop over runners or instances is `first_some`
--   with the loop's body, which returns, goes on or raises; `plan` asks the planners in turn.
-- Worker.Disaggregated.Protocol: src/exo/worker/disaggregated/protocol.py. The stream and msgspec are
--   parameters; the loop of `_read_exactly` takes one more than the bytes asked for as fuel, since
--   each round that goes on adds a byte.
-- Agent.Auth, Agent.RateLimit: tools/src/exo_tools/agent_core/auth.py. A method of `AuthService` is
--   a function of the database, which is one record with a field for each table; its SQL statements
--   are operations of dictionaries. Hashes and the methods of `str` that stand on Unicode are
--   parameters. The search for a free name takes the number of users and two as fuel, since the
--   numbered names differ; the digits of a number take the number itself.
--
-- The parts meet in this way: a node's events reach the master, whose MultiSourceBuffer puts each
-- node's in order; the master numbers, applies, logs and sends them; every node puts what it
-- receives in order with an OrderedBuffer and applies it. Which master is followed, the election
-- decides. The master answers commands with events: a placement is a change of the instances, whose
-- events, indexed and applied, make every node's state hold them; the worker's plan reads that state.
-- The agent core is a service beside the cluster, with users of its own.
--
-- Not modelled: the worker's runners, the inference engines, downloads, the network, the
-- HTTP interfaces, the agent's tools, and the parts in other languages: they
-- stand on libraries, processes and hardware that the repository only calls.
mod Base
pub mod Types
pub mod Utils
pub mod Election
pub mod Shared
pub mod Master
pub mod Worker
pub mod Agent
pub mod Routing
