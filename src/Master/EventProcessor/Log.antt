-- ===== src/Master/EventProcessor/Log.antt =====
-- What the master's log is to its state and to the events it sends.
use agent_setup.Base.{
  ℕ, suc, ◌≡◌, refl, sym, ap, ◌∙◌, Option, none, some, List, [], ◌∷◌, ◌++◌, map, map-append, arith,
  length, length-append, append-nil, append_assoc, Option-cases, inl, inr, Bool-cases, String,
  subst,
}
use native.Mathlib.Nat.{zero-add}
use agent_setup.Base.Int.{pos, sub_ℕ}
use agent_setup.Base.Result.{Result, ok}
use agent_setup.Types.Common.{NodeId, SessionId}
use agent_setup.Types.Events.{IndexedEvent, Event, GlobalForwarderEvent}
use agent_setup.Types.Tasks.{TaskId}
use agent_setup.Base.Eq.{text_eq, number_eq}
use agent_setup.Base.Dict.{get, insert}
use agent_setup.Types.State.{initial}
use agent_setup.Shared.Interface.{TopologyOps}
use agent_setup.Shared.Apply.{event_apply}
use agent_setup.Shared.Apply.Order.{
  indexed, indexed-append, event_applier, apply_at, event_applier-next,
}
use agent_setup.Master.EventProcessor.{
  Master, stamp, traces_of, index_event, process_event, process_events, handle_traces_collected,
  merge_and_save_traces, append_and_send, process_as, or_no_dict, has_all,
}

-- An entry of the log as it is sent to the nodes.
abbrev pub forward : NodeId → SessionId → ℕ × Event → GlobalForwarderEvent
forward node_id session_id (i, event) = record {
  origin_idx = i;
  origin = node_id;
  session = session_id;
  event = event;
}

add_entry : (ℕ → ℕ) → ℕ → Event → Option (TaskId × ℕ × List String) → (ℕ → List Event) → List Event
add_entry clock n event none rest = stamp (clock n) event ∷ rest (suc n)
add_entry clock n event (some traces) rest = rest n

-- What a batch of events adds to a log of `n` entries: each event but the traces, with the time.
unfoldable pub entries : (ℕ → ℕ) → ℕ → List Event → List Event
unfolding add_entry
entries clock n [] = []
entries clock n (event ∷ events) =
    add_entry clock n event (traces_of event.kind) (λ k. entries clock k events)

module _ (net : TopologyOps) where
  open net use {Topology, empty as bare}

  pub record Logged (m : Master Topology) : Type 0 where
    pub next : m.state.last_event_applied_idx ≡ sub_ℕ (length m.event_log) 1
    pub replays : event_applier net (initial bare) (indexed 0 m.event_log) ≡ ok m.state
    pub sent : m.global_sent ≡ map (forward m.node_id m.session_id) (indexed 0 m.event_log)

  -- A run of the loop's body that returns, what it logs, and what it leaves alone.
  pub record Processed (m : Master Topology) (added : List Event) (r : Result (Master Topology))
      : Type 0 where
    pub after : Master Topology
    pub returns : r ≡ ok after
    pub logged : Logged after
    pub log : after.event_log ≡ m.event_log ++ added
    pub same_session : after.session_id ≡ m.session_id
    pub same_node : after.node_id ≡ m.node_id
    pub same_buffer : after.multi_buffer ≡ m.multi_buffer

  module _ (clock : ℕ → ℕ) where
    index_event-Processed :
        (m : Master Topology) (event : Event)
        → Logged m
        → Processed m
            (stamp (clock (length m.event_log)) event ∷ [])
            (index_event net clock m event)
    unfolding index_event indexed
    index_event-Processed m event l =
        let stamped = stamp (clock (length m.event_log)) event in
        let indexed_event : IndexedEvent = record { idx = length m.event_log; event = stamped } in
        let state = record (event_apply net stamped m.state) {
          last_event_applied_idx = pos (length m.event_log);
        } in
        let applied = apply_at net m.state indexed_event l.next in
        record {
          after = append_and_send m stamped state;
          returns = rw applied;
          logged = record {
            next = rw length-append (ground arith);
            replays = event_applier-next net m.state m.event_log stamped l.next l.replays;
            sent = rw (indexed-append, map-append, zero-add, l.sent);
          };
          log = refl;
          same_session = refl;
          same_node = refl;
          same_buffer = refl;
        }

    traces-Processed :
        (m : Master Topology) (task_id : TaskId) (rank : ℕ) (traces : List String)
        → Logged m
        → Processed m [] (ok (handle_traces_collected m task_id rank traces))
    unfolding handle_traces_collected merge_and_save_traces
    traces-Processed m task_id rank traces l =
        let got = insert (or_no_dict (get m.pending_traces task_id)) rank traces in
        elim (Bool-cases (has_all got (get m.expected_ranks task_id))) [
          | inl full ↦ record {
            after = handle_traces_collected m task_id rank traces;
            returns = refl;
            logged = rw full (record { next = l.next; replays = l.replays; sent = l.sent });
            log = rw (full, append-nil);
            same_session = rw full;
            same_node = rw full;
            same_buffer = rw full;
          }
          | inr missing ↦ record {
            after = handle_traces_collected m task_id rank traces;
            returns = refl;
            logged = rw missing (record { next = l.next; replays = l.replays; sent = l.sent });
            log = rw (missing, append-nil);
            same_session = rw missing;
            same_node = rw missing;
            same_buffer = rw missing;
          }
        ]

    process_event_plain :
        (m : Master Topology) (event : Event)
        → traces_of event.kind ≡ none
        → process_event net clock m event ≡ index_event net clock m event
    unfolding process_event process_as
    process_event_plain m event h = ap (process_as net clock m event) h

    process_event_traces :
        (m : Master Topology) (event : Event) (task_id : TaskId) (rank : ℕ) (traces : List String)
        → traces_of event.kind ≡ some (task_id, rank, traces)
        → process_event net clock m event ≡ ok (handle_traces_collected m task_id rank traces)
    unfolding process_event process_as
    process_event_traces m event task_id rank traces h = ap (process_as net clock m event) h

    entries_plain :
        (n : ℕ) (event : Event) (events : List Event)
        → traces_of event.kind ≡ none
        → entries clock n (event ∷ events) ≡ stamp (clock n) event ∷ entries clock (suc n) events
    unfolding entries add_entry
    entries_plain n event events h =
        ap (λ t. add_entry clock n event t (λ k. entries clock k events)) h

    entries_traces :
        (n : ℕ) (event : Event) (events : List Event) (t : TaskId × ℕ × List String)
        → traces_of event.kind ≡ some t
        → entries clock n (event ∷ events) ≡ entries clock n events
    unfolding entries add_entry
    entries_traces n event events t h =
        ap (λ t. add_entry clock n event t (λ k. entries clock k events)) h

    Processed-of :
        (m : Master Topology) (xs : List Event) (r r' : Result (Master Topology))
        → r ≡ r'
        → Processed m xs r'
        → Processed m xs r
    Processed-of m xs r r' e p = record {
      after = p.after;
      returns = e ∙ p.returns;
      logged = p.logged;
      log = p.log;
      same_session = p.same_session;
      same_node = p.same_node;
      same_buffer = p.same_buffer;
    }

    Processed-next :
        (m : Master Topology) (xs ys : List Event) (event : Event) (events : List Event)
        → (p : Processed m xs (process_event net clock m event))
        → Processed p.after ys (process_events net clock p.after events)
        → Processed m (xs ++ ys) (process_events net clock m (event ∷ events))
    unfolding process_events
    Processed-next m xs ys event events p q = record {
      after = q.after;
      returns = rw p.returns q.returns;
      logged = q.logged;
      log = rw (q.log, p.log, append_assoc);
      same_session = q.same_session ∙ p.same_session;
      same_node = q.same_node ∙ p.same_node;
      same_buffer = q.same_buffer ∙ p.same_buffer;
    }

    after_plain :
        (m : Master Topology) (event : Event) (events : List Event)
        → traces_of event.kind ≡ none
        → (p : Processed m
            (stamp (clock (length m.event_log)) event ∷ [])
            (process_event net clock m event))
        → Processed p.after
            (entries clock (length p.after.event_log) events)
            (process_events net clock p.after events)
        → Processed m
            (entries clock (length m.event_log) (event ∷ events))
            (process_events net clock m (event ∷ events))
    after_plain m event events plain p rest =
        let grown : length p.after.event_log ≡ suc (length m.event_log) =
          rw (p.log, length-append) (omega arith) in
        subst (λ xs. Processed m xs (process_events net clock m (event ∷ events)))
          (sym (entries_plain (length m.event_log) event events plain))
          (Processed-next m (stamp (clock (length m.event_log)) event ∷ [])
            (entries clock (suc (length m.event_log)) events) event events p
            (subst
              (λ n.
                Processed p.after (entries clock n events)
                  (process_events net clock p.after events))
              grown rest))

    after_traces :
        (m : Master Topology) (event : Event) (events : List Event) (t : TaskId × ℕ × List String)
        → traces_of event.kind ≡ some t
        → (p : Processed m [] (process_event net clock m event))
        → Processed p.after
            (entries clock (length p.after.event_log) events)
            (process_events net clock p.after events)
        → Processed m
            (entries clock (length m.event_log) (event ∷ events))
            (process_events net clock m (event ∷ events))
    after_traces m event events t collected p rest =
        let kept : length p.after.event_log ≡ length m.event_log = rw (p.log, append-nil) refl in
        subst (λ xs. Processed m xs (process_events net clock m (event ∷ events)))
          (sym (entries_traces (length m.event_log) event events t collected))
          (Processed-next m [] (entries clock (length m.event_log) events) event events p (
            subst
              (λ n.
                Processed p.after (entries clock n events)
                  (process_events net clock p.after events))
              kept rest))

    -- The loop over the drained events never raises, and keeps the log in step.
    pub process_events-Processed :
        (events : List Event) (m : Master Topology)
        → Logged m
        → Processed m
            (entries clock (length m.event_log) events)
            (process_events net clock m events)
    process_events-Processed [] m l = record {
      after = m;
      returns = unfold process_events in refl;
      logged = l;
      log = unfold entries in rw append-nil;
      same_session = refl;
      same_node = refl;
      same_buffer = refl;
    }
    process_events-Processed (event ∷ events) m l = elim (Option-cases (traces_of event.kind)) [
      | inl plain ↦
          let p =
            Processed-of m _ _ _ (process_event_plain m event plain)
              (index_event-Processed m event l) in
          after_plain m event events plain p (process_events-Processed events p.after p.logged)
      | inr ((task_id, rank, traces), collected) ↦
          let p =
            Processed-of m _ _ _ (process_event_traces m event task_id rank traces collected)
              (traces-Processed m task_id rank traces l) in
          after_traces m event events _ collected p
            (process_events-Processed events p.after p.logged)
    ]
