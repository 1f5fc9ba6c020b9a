-- ===== src/Shared/Apply/Order.antt =====
-- What the order of the events makes of the state: `Worker._event_applier` and the part of
-- `Master._event_processor` that stamps, applies and logs an event.
use native.Mathlib.Nat.{add-zero, zero-add}
use agent_setup.Base.{
  ℕ, suc, ◌+◌, ◌≡◌, refl, ap, ◌∙◌, List, [], ◌∷◌, ◌++◌, arith, length, Bool-cases, inl, inr, true,
  Bool, ◌≢◌,
}
use agent_setup.Base.Int.{ℤ, pos, sub_ℕ, eqb_ℤ, eq_of_parts}
use agent_setup.Base.Result.{Result, ok, raise, assertion_error, assert, ◌>>=◌, ◌>>◌}
use agent_setup.Types.Events.{Event, IndexedEvent}
use agent_setup.Types.State.{State, initial}
use agent_setup.Shared.Interface.{TopologyOps}
use agent_setup.Shared.Apply.{apply, event_apply}

-- The events of a log with their indices.
unfoldable pub indexed : ℕ → List Event → List (ℕ × Event)
indexed i [] = []
indexed i (event ∷ log) = (i, event) ∷ indexed (suc i) log

pub indexed-append :
    (i : ℕ) (xs ys : List Event) → indexed i (xs ++ ys) ≡ indexed i xs ++ indexed (i + length xs) ys
unfolding indexed
indexed-append i [] ys = rw add-zero
indexed-append i (x ∷ xs) ys =
    let shift : i + suc (length xs) ≡ suc i + length xs = omega arith in
    rw shift (ap (λ l. (i, x) ∷ l) (indexed-append (suc i) xs ys))

module _ (net : TopologyOps) where
  open net use {Topology, empty as bare}

  -- Worker._event_applier, for the events that it has received.
  unfoldable pub event_applier : State Topology → List (ℕ × Event) → Result (State Topology)
  event_applier s [] = ok s
  event_applier s ((idx, event) ∷ events) =
      apply net s (record { idx = idx; event = event }) >>= λ s'. event_applier s' events

  eqb_refl : (a : ℤ) → eqb_ℤ a a ≡ true
  eqb_refl a = ground arith

  -- An event is applied exactly when its index follows the last one: otherwise `apply` raises.
  pub apply_at :
      (s : State Topology) (event : IndexedEvent)
      → s.last_event_applied_idx ≡ sub_ℕ event.idx 1
      → apply net s event
        ≡ ok (record (event_apply net event.event s) { last_event_applied_idx = pos event.idx })
  unfolding apply
  apply_at s event h =
      assert_true _ (ap (λ a. eqb_ℤ a (sub_ℕ event.idx 1)) h ∙ eqb_refl (sub_ℕ event.idx 1))
    where
      assert_true : {r : Result (State Topology)} (b : Bool) → b ≡ true → (assert b >> r) ≡ r
      assert_true b e = rw e

  -- An event whose index does not follow the last one raises.
  pub apply_gap :
      (s : State Topology) (event : IndexedEvent)
      → s.last_event_applied_idx ≢ sub_ℕ event.idx 1
      → apply net s event ≡ raise assertion_error
  unfolding apply
  apply_gap s event h = elim (Bool-cases (eqb_ℤ s.last_event_applied_idx (sub_ℕ event.idx 1))) [
    | inl same ↦ absurd (h (eqb_ℤ-eq _ _ same))
    | inr gap ↦ rw gap
  ]
    where
      eqb_ℤ-eq : (a b : ℤ) → eqb_ℤ a b ≡ true → a ≡ b
      eqb_ℤ-eq a b q = eq_of_parts a b (ground arith)

  event_applier-append :
      (s : State Topology) (xs ys : List (ℕ × Event))
      → event_applier s (xs ++ ys) ≡ (event_applier s xs >>= λ s'. event_applier s' ys)
  unfolding event_applier
  event_applier-append s [] ys = refl
  event_applier-append s ((i, x) ∷ xs) ys =
      append_at (apply net s (record { idx = i; event = x })) (λ s'. event_applier-append s' xs ys)
    where
      append_at :
          (r : Result (State Topology))
          → ((s' : State Topology)
              → event_applier s' (xs ++ ys) ≡ (event_applier s' xs >>= λ t. event_applier t ys))
          → (r >>= λ s'. event_applier s' (xs ++ ys))
            ≡ ((r >>= λ s'. event_applier s' xs) >>= λ t. event_applier t ys)
      append_at (ok s') rec = rec s'
      append_at (raise x) rec = refl

  -- The log that gave `s` and one more event under the next index give the next state.
  pub event_applier-next :
      (s : State Topology) (log : List Event) (event : Event)
      → s.last_event_applied_idx ≡ sub_ℕ (length log) 1
      → event_applier (initial bare) (indexed 0 log) ≡ ok s
      → event_applier (initial bare) (indexed 0 (log ++ event ∷ []))
        ≡ ok (record (event_apply net event s) { last_event_applied_idx = pos (length log) })
  unfolding event_applier indexed
  event_applier-next s log event h replay = rw (
    indexed-append 0 log (event ∷ []),
    event_applier-append,
    replay,
    zero-add,
    apply_at s (record { idx = length log; event = event }) h,
  )
