-- ===== src/Master/EventProcessor/Streams.antt =====
-- `_event_processor` over the events of all nodes, each of which sends a stream of its own.
use agent_setup.Base.{ℕ, ◌≡◌, refl, sym, true, List, [], ◌∷◌, String, Bool-cases, inl, inr, subst}
use mathlib.Core.List.{Memᴰ}
use agent_setup.Base.Eq.{Eq, ◌==◌, ==_eq, text_eq}
use agent_setup.Base.Dict.{get, insert}
use agent_setup.Base.Result.{Result, ok}
use agent_setup.Types.Common.{NodeId, SessionId, session_eq}
use agent_setup.Types.Events.{Event, LocalForwarderEvent}
use agent_setup.Types.Equality.{event_eq}
use agent_setup.Types.State.{initial}
use agent_setup.Shared.Apply.Order.{event_applier, indexed}
use agent_setup.Shared.Interface.{TopologyOps}
use agent_setup.Utils.EventBuffer.{
  OrderedBuffer, MultiSourceBuffer, buffer_of, multi_ingest, multi_drain, drain,
}
use agent_setup.Utils.EventBuffer.Drain.{drain_indexed-Drained}
use agent_setup.Utils.EventBuffer.Stream.{Valid, ingest-Ingested}
use agent_setup.Utils.EventBuffer.Resequence.{empty-Valid}
use agent_setup.Utils.EventBuffer.Sources.{buffer_of-insert, multi_drain_each}
use agent_setup.Master.EventProcessor.{
  Master, master_init, process_events, on_local_event, event_processor,
}
use agent_setup.Master.EventProcessor.Log.{Logged, process_events-Processed}

module _ {ℓ} {T : Type ℓ} ⦃e : Eq T⦄ (f : String → ℕ → T) where
  -- Every source's buffer holds events of that source's stream.
  abbrev pub AllValid : MultiSourceBuffer String T → Type ℓ
  AllValid m = (source : String) → Valid (f source) (buffer_of m source)

  insert-AllValid :
      (m : MultiSourceBuffer String T) (source : String) (b : OrderedBuffer T)
      → AllValid m
      → Valid (f source) b
      → AllValid (insert m source b)
  insert-AllValid m source b all v other =
      subst (Valid (f other)) (sym (buffer_of-insert m source other b))
        (elim (Bool-cases (source == other)) [
          | inl same ↦ rw same (subst (λ s. Valid (f s) b) (==_eq source other same) v)
          | inr apart ↦ rw apart (all other)
        ])

  drained-Valid : (g : ℕ → T) (b : OrderedBuffer T) → Valid g b → Valid g (drain b).1
  unfolding drain
  drained-Valid g b v = let d = drain_indexed-Drained g b v in rw (← d.next) at d.holds

  multi_drain-AllValid : (m : MultiSourceBuffer String T) → AllValid m → AllValid (multi_drain m).1
  multi_drain-AllValid m all source =
      subst (Valid (f source)) (sym (multi_drain_each m source))
        (drained-Valid (f source) (buffer_of m source) (all source))

  multi_ingest-AllValid :
      (m : MultiSourceBuffer String T) (idx : ℕ) (source : String)
      → AllValid m
      → (m' : MultiSourceBuffer String T) × (multi_ingest m idx (f source idx) source ≡ ok m')
        × AllValid m'
  unfolding multi_ingest
  multi_ingest-AllValid m idx source all =
      let g = ingest-Ingested (f source) (buffer_of m source) idx (all source) in
      (insert m source g.after, rw g.returns, insert-AllValid m source g.after all g.valid)

module _ (net : TopologyOps) (clock : ℕ → ℕ) (f : String → ℕ → Event) where
  open net use {Topology, empty as bare}

  -- The events of the session `s` are events of their sources' streams.
  abbrev pub FromStreams : SessionId → List LocalForwarderEvent → Type 0
  FromStreams s locals =
      (local : LocalForwarderEvent)
      → Memᴰ local locals
      → (local.session == s) ≡ true
      → f local.origin local.origin_idx ≡ local.event

  -- A master in step, after some events of the session `s`.
  pub record InStep (s : SessionId) (r : Result (Master Topology)) : Type 0 where
    pub master : Master Topology
    pub returns : r ≡ ok master
    pub logged : Logged net master
    pub buffers : AllValid f master.multi_buffer
    pub session : master.session_id ≡ s

  on_drained-InStep :
      (m : Master Topology) (buffer : MultiSourceBuffer String Event) (events : List Event)
      → Logged net m
      → AllValid f buffer
      → InStep m.session_id (process_events net clock (record m { multi_buffer = buffer }) events)
  on_drained-InStep m buffer events l all =
      let p =
        process_events-Processed net clock events (record m { multi_buffer = buffer })
          (record { next = l.next; replays = l.replays; sent = l.sent }) in
      record {
        master = p.after;
        returns = p.returns;
        logged = p.logged;
        buffers = subst (AllValid f) (sym p.same_buffer) all;
        session = p.same_session;
      }

  on_local_event-InStep :
      (m : Master Topology) (local : LocalForwarderEvent)
      → Logged net m
      → AllValid f m.multi_buffer
      → ((local.session == m.session_id) ≡ true → f local.origin local.origin_idx ≡ local.event)
      → InStep m.session_id (on_local_event net clock m local)
  unfolding on_local_event
  on_local_event-InStep m local l all from = elim (Bool-cases (local.session == m.session_id)) [
    | inl same ↦
        let (buffer, taken, valid) =
          multi_ingest-AllValid f m.multi_buffer local.origin_idx local.origin all in
        rw (same, ← from same, taken)
          (on_drained-InStep m (multi_drain buffer).1 (multi_drain buffer).0 l
            (multi_drain-AllValid f buffer valid))
    | inr other ↦
        rw other (record { master = m; returns = refl; logged = l; buffers = all; session = refl })
  ]

  InStep-next :
      (s : SessionId) (m : Master Topology) (local : LocalForwarderEvent)
      (locals : List LocalForwarderEvent)
      → (i : InStep s (on_local_event net clock m local))
      → InStep s (event_processor net clock i.master locals)
      → InStep s (event_processor net clock m (local ∷ locals))
  unfolding event_processor
  InStep-next s m local locals i rest = record {
    master = rest.master;
    returns = rw i.returns rest.returns;
    logged = rest.logged;
    buffers = rest.buffers;
    session = rest.session;
  }

  event_processor-InStep :
      (s : SessionId) (locals : List LocalForwarderEvent) (m : Master Topology)
      → m.session_id ≡ s
      → Logged net m
      → AllValid f m.multi_buffer
      → FromStreams s locals
      → InStep s (event_processor net clock m locals)
  event_processor-InStep s [] m at l all from = record {
    master = m;
    returns = unfold event_processor in refl;
    logged = l;
    buffers = all;
    session = at;
  }
  event_processor-InStep s (local ∷ locals) m at l all from =
      let i : InStep s (on_local_event net clock m local) =
        subst (λ t. InStep t (on_local_event net clock m local)) at
          (on_local_event-InStep m local l all
            (λ same. from local (Memᴰ.head refl) (rw at at same))) in
      InStep-next s m local locals i (
        event_processor-InStep s locals i.master i.session i.logged i.buffers
          (λ x k. from x (Memᴰ.tail k)))

  init-Logged : (n : NodeId) (s : SessionId) → Logged net (master_init bare n s)
  init-Logged n s =
      unfold master_init event_applier initial indexed in
      record { next = refl; replays = refl; sent = refl }

  -- If each source numbers its events of the master's session in a stream of its own, then, in
  -- whatever order and however often the events arrive, mixed with events of other sessions, the
  -- master never raises; its state is the one that the events of its log make, in order, and it has
  -- sent exactly the entries of its log.
  pub event_processor-in_step :
      (n : NodeId) (s : SessionId) (locals : List LocalForwarderEvent)
      → FromStreams s locals
      → (m : Master Topology) × (event_processor net clock (master_init bare n s) locals ≡ ok m)
        × Logged net m
  event_processor-in_step n s locals from =
      let i =
        event_processor-InStep s locals (master_init bare n s) (unfold master_init in refl)
          (init-Logged n s) (λ source. unfold master_init buffer_of get in empty-Valid (f source))
          from in
      (i.master, i.returns, i.logged)
