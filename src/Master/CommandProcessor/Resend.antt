-- ===== src/Master/CommandProcessor/Resend.antt =====
-- What a node that asks for the event log gets.
use agent_setup.Base.{
  ℕ, zero, suc, ◌+◌, ◌-◌, ◌≤◌, ◌≡◌, refl, ap, ◌∙◌, min, Option, none, some, List, [], ◌∷◌, ◌++◌,
  inl, inr, Bool-cases, length, get_elem?, ltb, if◌then◌else◌, arith,
}
use agent_setup.Base.Seq.{take, drop}
use agent_setup.Types.Events.{Event, GlobalForwarderEvent}
use agent_setup.Master.EventProcessor.{Master}
use agent_setup.Master.CommandProcessor.{resent, request_log}

module _ {A : Type 0} where
  get-take :
      (n : ℕ) (xs : List A) (k : ℕ)
      → get_elem? (take n xs) k ≡ (if ltb k n then get_elem? xs k else none)
  unfolding take
  get-take zero [] k = ground arith
  get-take zero (x ∷ xs) k = ground arith
  get-take (suc n) [] k = ground arith
  get-take (suc n) (x ∷ xs) zero = ground arith
  get-take (suc n) (x ∷ xs) (suc k) = ground (arith, get-take n xs k)

  get-drop : (n : ℕ) (xs : List A) (k : ℕ) → get_elem? (drop n xs) k ≡ get_elem? xs (n + k)
  unfolding drop
  get-drop zero [] k = ground arith
  get-drop zero (x ∷ xs) k = ap (get_elem? (x ∷ xs)) (omega arith)
  get-drop (suc n) [] k = ground arith
  get-drop (suc n) (x ∷ xs) k = get-drop n xs k ∙ next
    where
      next : get_elem? xs (n + k) ≡ get_elem? (x ∷ xs) (suc n + k)
      next = let e : suc n + k ≡ suc (n + k) = omega arith in rw e

  beyond : (xs : List A) (k : ℕ) → length xs ≤ k → get_elem? xs k ≡ none
  beyond [] k h = refl
  beyond (x ∷ xs) zero h = absurd (omega arith)
  beyond (x ∷ xs) (suc k) h = beyond xs k (omega arith)

module _ {T : Type 0} (m : Master T) where
  -- The entry of the log at an index as it goes over the network.
  abbrev pub sent_as : ℕ → Option Event → Option GlobalForwarderEvent
  sent_as i none = none
  sent_as i (some event) =
      some (record { origin_idx = i; origin = m.node_id; session = m.session_id; event = event })

  get-resent :
      (i : ℕ) (events : List Event) (k : ℕ)
      → get_elem? (resent m i events) k ≡ sent_as (i + k) (get_elem? events k)
  unfolding resent
  get-resent i [] k = refl
  get-resent i (event ∷ events) zero = let e : i + 0 ≡ i = omega arith in rw e
  get-resent i (event ∷ events) (suc k) =
      let e : i + suc k ≡ suc i + k = omega arith in rw e (get-resent (suc i) events k)

  within :
      (since k len : ℕ) (log : List Event)
      → length log ≡ len
      → (if ltb k (min (since + 1000) len - since) then get_elem? log (since + k) else none)
        ≡ (if ltb k 1000 then get_elem? log (since + k) else none)
  within since k len log e = elim (Bool-cases (ltb (since + k) len)) [
    | inl inside ↦ ap (λ b. if b then get_elem? log (since + k) else none) (ground arith)
    | inr outside ↦ rw (beyond log (since + k) (ground arith)) (ground arith)
  ]

  -- What is sent, besides what was before, are the entries of the log from the index asked for on,
  -- each under its index and in the master's session, in order, until 1000 are sent or the log ends.
  pub request_log-Resent :
      (since : ℕ)
      → (again : List GlobalForwarderEvent) × ((request_log m since).global_sent
          ≡ m.global_sent ++ again)
        × ((k : ℕ)
            → get_elem? again k
              ≡ sent_as
                  (since + k)
                  (if ltb k 1000 then get_elem? m.event_log (since + k) else none))
  unfolding request_log
  request_log-Resent since =
      let n = min (since + 1000) (length m.event_log) - since in
      (
        resent m since (take n (drop since m.event_log)),
        refl,
        λ k.
            get-resent since (take n (drop since m.event_log)) k
            ∙ ap (sent_as (since + k)) (
                get-take n (drop since m.event_log) k
                ∙ ap (λ o. if ltb k n then o else none) (get-drop since m.event_log k)
                ∙ within since k (length m.event_log) m.event_log refl),
      )
