-- ===== src/Routing/EventRouter/Delivery.antt =====
-- What the receivers of a node get.
use agent_setup.Base.{
  ℕ, Bool, ◌⊎◌, ◌≤◌, ◌<◌, arith, leb, ◌+◌, ◌≡◌, refl, sym, ap, ◌∙◌, subst, true, false, false≢true,
  inl, inr, Bool-cases, List, [], ◌∷◌, ◌++◌, append-nil, append_assoc, String, modify, All,
  All-modify,
}
use agent_setup.Base.Eq.{◌==◌, text_eq, number_eq, ==_eq}
use agent_setup.Base.Dict.{without}
use agent_setup.Base.Result.{Result, ok, raise, overflow_error, ◌>>=◌}
use agent_setup.Types.Common.{SessionId, session_eq}
use agent_setup.Types.Events.{Event, GlobalForwarderEvent}
use agent_setup.Types.Equality.{event_eq}
use agent_setup.Utils.EventBuffer.{OrderedBuffer, ingest, drain_indexed}
use agent_setup.Utils.EventBuffer.Drain.{segment, Drained, drain_indexed-Drained}
use agent_setup.Utils.EventBuffer.Stream.{Valid, ingest-Ingested, segment_from_zero}
use agent_setup.Utils.EventBuffer.Resequence.{empty-Valid}
use agent_setup.Routing.EventRouter.{
  Listener, EventRouter, new_router, ingest_local, simple_retry, broadcast, broadcast_all,
  after_drain, run_ext_in, start_first, start_nack, end_nack, begin_nack, nack_delay, may_request,
}

-- A receiver that is open has got the events.
abbrev pub Fed : List (ℕ × Event) → Listener → Type 0
Fed events l = l.is_open ≡ true → l.got ≡ events

broadcast-Fed :
    (events : List (ℕ × Event)) (event : ℕ × Event) (ls : List Listener)
    → All (Fed events) ls
    → All (Fed (events ++ event ∷ [])) (broadcast event ls)
unfolding broadcast
broadcast-Fed events event [] all = tt
broadcast-Fed events event (l ∷ ls) all = elim (Bool-cases l.is_open) [
  | inl is ↦
      rw is ((λ p. ap (λ g. g ++ event ∷ []) (all.0 is)), broadcast-Fed events event ls all.1)
  | inr closed ↦ rw closed (broadcast-Fed events event ls all.1)
]

broadcast_all-Fed :
    (more events : List (ℕ × Event)) (ls : List Listener)
    → All (Fed events) ls
    → All (Fed (events ++ more)) (broadcast_all more ls)
unfolding broadcast_all
broadcast_all-Fed [] events ls all = subst (λ e. All (Fed e) ls) (sym (append-nil events)) all
broadcast_all-Fed (event ∷ more) events ls all =
    subst (λ e. All (Fed e) (broadcast_all more (broadcast event ls)))
      (append_assoc events (event ∷ []) more)
      (broadcast_all-Fed more (events ++ event ∷ []) (broadcast event ls)
        (broadcast-Fed events event ls all))

-- What happens to a router. A number names the receiver that closes, or the scope of the request that
-- ends, which wakes up or was cancelled.
pub data Happening : Type 0 where
  arrives : GlobalForwarderEvent → Happening
  sends : String → ℕ → ℕ → Event → Happening
  retries : ℕ → Happening
  closes : ℕ → Happening
  nack_begins : Happening
  nack_ends : ℕ → Bool → Happening

-- How many requests for events begin.
abbrev begun : Happening → ℕ
begun nack_begins = 1
begun _ = 0

unfoldable pub begins : List Happening → ℕ
begins [] = 0
begins (h ∷ hs) = begun h + begins hs

unfoldable pub happen : EventRouter → Happening → Result EventRouter
happen r (arrives event) = run_ext_in r event
happen r (sends system_id idx now event) = ok (ingest_local r system_id idx now event)
happen r (retries now) = ok (simple_retry r now)
happen r (closes i) = ok (record r {
  internal_outbound = modify r.internal_outbound i (λ l. record l { is_open = false });
})
happen r nack_begins = start_nack r
happen r (nack_ends id woke) = ok (end_nack r id woke)

unfoldable pub happen_all : EventRouter → List Happening → Result EventRouter
happen_all r [] = ok r
happen_all r (h ∷ hs) = happen r h >>= λ r'. happen_all r' hs

-- An event that the session's master has sent is the stream's under its index.
abbrev pub Sent : SessionId → (ℕ → Event) → Happening → Type 0
Sent session f (arrives event) =
    event.session ≡ session
    → event.origin ≡ session.master_node_id
    → f event.origin_idx ≡ event.event
Sent session f _ = Unit {0}

module _ (session : SessionId) (f : ℕ → Event) where
  -- The open receivers have got the beginning of the stream up to what the buffer waits for.
  -- No more requests in a row have begun than k.
  pub record Serves (k : ℕ) (r : EventRouter) : Type 0 where
    pub same : r.session_id ≡ session
    pub valid : Valid f r.buffer
    pub fed : All (Fed (segment f 0 r.buffer.next_idx_to_release)) r.internal_outbound
    pub tries : r.nack_attempts ≤ k

  -- What the receivers have after a drain from a buffer that waits where the router's does.
  broadcast_all-segment :
      (k : ℕ) (r : EventRouter) (buf : OrderedBuffer Event)
      (p : List (ℕ × Event) × OrderedBuffer Event)
      → Serves k r
      → buf.next_idx_to_release ≡ r.buffer.next_idx_to_release
      → Drained f buf.store buf.next_idx_to_release [] p
      → All (Fed (segment f 0 p.1.next_idx_to_release)) (broadcast_all p.0 r.internal_outbound)
  broadcast_all-segment k r buf p s same d =
      let n = r.buffer.next_idx_to_release in
      let released : p.0 ≡ segment f n d.count = d.released ∙ ap (λ i. segment f i d.count) same in
      let total : segment f 0 n ++ p.0 ≡ segment f 0 p.1.next_idx_to_release =
        ap (λ l. segment f 0 n ++ l) released
        ∙ segment_from_zero f n d.count
        ∙ ap (segment f 0) (sym (d.next ∙ ap (λ i. i + d.count) same)) in
      subst (λ e. All (Fed e) (broadcast_all p.0 r.internal_outbound)) total
        (broadcast_all-Fed p.0 (segment f 0 n) r.internal_outbound s.fed)

  after_drain-Serves :
      (k : ℕ) (r : EventRouter) (buf : OrderedBuffer Event)
      (p : List (ℕ × Event) × OrderedBuffer Event)
      → Serves k r
      → buf.next_idx_to_release ≡ r.buffer.next_idx_to_release
      → Drained f buf.store buf.next_idx_to_release [] p
      → Serves k (after_drain r p.0 p.1)
  after_drain-Serves k r buf ([], b) s same d =
      let fed : All (Fed (segment f 0 b.next_idx_to_release)) r.internal_outbound =
        unfold broadcast_all in broadcast_all-segment k r buf ([], b) s same d in
      let valid : Valid f b = rw (← d.next) at d.holds in
      elim (Bool-cases (may_request r.nack_cancel_scope)) [
        | inl may ↦ rw may (record { same = s.same; valid = valid; fed = fed; tries = s.tries })
        | inr no_need ↦
            rw no_need (record { same = s.same; valid = valid; fed = fed; tries = s.tries })
      ]
  after_drain-Serves k r buf (e ∷ es, b) s same d = record {
    same = s.same;
    valid = rw (← d.next) at d.holds;
    fed = broadcast_all-segment k r buf (e ∷ es, b) s same d;
    tries = omega arith;
  }

  run_ext_in-Serves :
      (k : ℕ) (r : EventRouter) (event : GlobalForwarderEvent)
      → Serves k r
      → Sent session f (arrives event)
      → (r' : EventRouter) × (run_ext_in r event ≡ ok r') × Serves k r'
  unfolding run_ext_in
  run_ext_in-Serves k r event s sent = elim (Bool-cases (event.session == r.session_id)) [
    | inr other ↦ rw other (r, refl, s)
    | inl ours ↦ elim (Bool-cases (event.origin == r.session_id.master_node_id)) [
      | inr other ↦ rw (ours, other) (r, refl, s)
      | inl master ↦
          let session_is = ==_eq event.session r.session_id ours ∙ s.same in
          let origin_is =
            ==_eq event.origin r.session_id.master_node_id master
            ∙ ap (λ (x : SessionId). x.master_node_id) s.same in
          let is = sent session_is origin_is in
          let g = ingest-Ingested f r.buffer event.origin_idx s.valid in
          let d = drain_indexed-Drained f g.after g.valid in
          let r1 = record r {
            out_for_delivery = without r.out_for_delivery event.event.event_id;
          } in
          let s1 : Serves k r1 = record {
            same = s.same;
            valid = s.valid;
            fed = s.fed;
            tries = s.tries;
          } in
          let returns : ingest r.buffer event.origin_idx event.event ≡ ok g.after =
            subst (λ t. ingest r.buffer event.origin_idx t ≡ ok g.after) is g.returns in
          rw (ours, master, returns)
            (_, refl, after_drain-Serves k r1 g.after (drain_indexed g.after) s1 g.same_next d)
    ]
  ]

  -- What happens leaves the router serving, or it raises at the 1025th request in a row.
  abbrev Goes : ℕ → Result EventRouter → Type 0
  Goes k m =
      ((r : EventRouter) × (m ≡ ok r) × Serves k r) ⊎ ((m ≡ raise overflow_error) × (1024 < k))

  start_first-Serves :
      (k : ℕ) (r : EventRouter) (started : List ℕ)
      → Serves k r
      → Goes (k + 1) (start_first r started)
  unfolding begin_nack nack_delay
  start_first-Serves k r [] s = inl (
    r,
    refl,
    record { same = s.same; valid = s.valid; fed = s.fed; tries = omega (arith, s.tries) },
  )
  start_first-Serves k r (since_idx ∷ started) s = elim (Bool-cases (leb 1024 r.nack_attempts)) [
    | inl many ↦ inr (rw many, let t = s.tries in ground arith)
    | inr few ↦ rw few (
        inl (
          _,
          refl,
          record { same = s.same; valid = s.valid; fed = s.fed; tries = omega (arith, s.tries) },
        ))
  ]

  happen-Serves :
      (k : ℕ) (r : EventRouter) (h : Happening)
      → Serves k r
      → Sent session f h
      → Goes (k + begun h) (happen r h)
  unfolding happen ingest_local simple_retry end_nack start_nack
  happen-Serves k r (arrives event) s sent =
      let (r', e, s') = run_ext_in-Serves k r event s sent in
      inl (
        r',
        e,
        record { same = s'.same; valid = s'.valid; fed = s'.fed; tries = omega (arith, s'.tries) },
      )
  happen-Serves k r (sends system_id idx now event) s sent = inl (
    _,
    refl,
    record { same = s.same; valid = s.valid; fed = s.fed; tries = omega (arith, s.tries) },
  )
  happen-Serves k r (retries now) s sent = inl (
    _,
    refl,
    record { same = s.same; valid = s.valid; fed = s.fed; tries = omega (arith, s.tries) },
  )
  happen-Serves k r (closes i) s sent = inl (
    _,
    refl,
    record {
      same = s.same;
      valid = s.valid;
      fed =
          All-modify (Fed (segment f 0 r.buffer.next_idx_to_release)) r.internal_outbound i
            (λ l. record l { is_open = false }) (λ l at fed p. absurd (false≢true p)) s.fed;
      tries = omega (arith, s.tries);
    },
  )
  happen-Serves k r nack_begins s sent = start_first-Serves k r r.nack_started s
  happen-Serves k r (nack_ends id woke) s sent = inl (
    _,
    refl,
    record { same = s.same; valid = s.valid; fed = s.fed; tries = omega (arith, s.tries) },
  )

  happen_all-Serves :
      (hs : List Happening) (k : ℕ) (r : EventRouter)
      → Serves k r
      → All (Sent session f) hs
      → Goes (k + begins hs) (happen_all r hs)
  unfolding happen_all begins
  happen_all-Serves [] k r s sent = inl (
    r,
    refl,
    record { same = s.same; valid = s.valid; fed = s.fed; tries = omega (arith, s.tries) },
  )
  happen_all-Serves (h ∷ hs) k r s sent = elim (happen-Serves k r h s sent.0) [
    | inr (raised, many) ↦ inr (rw raised, omega arith)
    | inl (r1, e1, s1) ↦ rw e1 (
        subst (λ n. Goes n (happen_all r1 hs)) (omega arith)
          (happen_all-Serves hs (k + begun h) r1 s1 sent.1))
  ]

-- If the master of the session sends, under each index, the event of one stream, then, in whatever
-- order and however often events arrive, mixed with events of others, with events of the node's
-- own, rounds of the retry, requests for missing events that begin, wake up or are cancelled, and
-- receivers that close anywhere between, every receiver that the router holds and that is open has
-- got the beginning of the stream up to the index that the buffer waits for, each event once, in
-- order, if the open receivers had nothing at first. The router raises nothing but an overflow of
-- the delay of a request, and that only where more than 1024 requests begin.
pub happen_all-Fed :
    (session : SessionId) (f : ℕ → Event) (listeners : List Listener) (hs : List Happening)
    → All (Fed []) listeners
    → All (Sent session f) hs
    → ((r : EventRouter) × (happen_all (new_router session listeners) hs ≡ ok r)
        × All (Fed (segment f 0 r.buffer.next_idx_to_release)) r.internal_outbound)
      ⊎ ((happen_all (new_router session listeners) hs ≡ raise overflow_error) × (1024 < begins hs))
happen_all-Fed session f listeners hs fresh sent =
    elim (happen_all-Serves session f hs 0 (new_router session listeners)
      (record { same = refl; valid = empty-Valid f; fed = fresh; tries = omega arith }) sent) [
        | inl (r, e, s) ↦ inl (r, e, s.fed)
        | inr (raised, many) ↦ inr (raised, omega arith)
      ]
