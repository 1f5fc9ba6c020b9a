-- ===== src/Utils/EventBuffer/Drain.antt =====
-- What a drain releases and leaves behind.
use agent_setup.Base.{
  ℕ, zero, suc, ◌+◌, ◌≤◌, ◌<◌, ◌≡◌, refl, none, some, List, [], ◌∷◌, ◌++◌, append-nil, append_assoc,
  length, arith, ◌∙◌, inl, inr, Option-cases,
}
use native.Mathlib.Nat.{add-zero}
use agent_setup.Base.Eq.{number_eq}
use agent_setup.Base.Dict.{Dict, get, without, get-without}
use agent_setup.Utils.EventBuffer.{OrderedBuffer, drain_loop, drain_indexed}

module _ {ℓ} {T : Type ℓ} where
  -- Removing a key that is there shortens the dictionary, which is the loop's measure.
  pub length-without : (d : Dict ℕ T) (k : ℕ) → length (without d k) ≤ length d
  unfolding without
  length-without [] k = omega arith
  length-without ((j, v) ∷ d) k = ground (arith, length-without d k)

  pub length-without_found :
      (d : Dict ℕ T) (k : ℕ) (t : T) → get d k ≡ some t → length (without d k) < length d
  unfolding without get
  length-without_found [] k t h = absurd (ground arith)
  length-without_found ((j, v) ∷ d) k t h =
      ground (arith, length-without d k, length-without_found d k t)

  pub get-nil_length : (d : Dict ℕ T) (k : ℕ) → length d ≡ 0 → get d k ≡ none
  unfolding get
  get-nil_length [] k h = refl
  get-nil_length (p ∷ d) k h = absurd (omega arith)

  -- The `n` events of the stream `f` from index `i` on.
  abbrev pub segment : (ℕ → T) → ℕ → ℕ → List (ℕ × T)
  segment f i zero = []
  segment f i (suc n) = (i, f i) ∷ segment f (suc i) n

  -- The store holds events of the stream `f` only, none of them before `i`.
  pub record Holds (f : ℕ → T) (store : Dict ℕ T) (i : ℕ) : Type ℓ where
    pub event : (k : ℕ) (t : T) → get store k ≡ some t → (f k ≡ t) × (i ≤ k)

  -- What a drain of `store` from index `i` has done when it ends: it released `count` events, no
  -- event is there under the next index, and the events behind it are still in the store.
  pub record Drained (f : ℕ → T) (store : Dict ℕ T) (i : ℕ) (ret : List (ℕ × T))
      (r : List (ℕ × T) × OrderedBuffer T) : Type ℓ where
    pub count : ℕ
    pub released : r.0 ≡ ret ++ segment f i count
    pub next : r.1.next_idx_to_release ≡ i + count
    pub stops : get r.1.store (i + count) ≡ none
    pub kept : (k : ℕ) → i + count ≤ k → get r.1.store k ≡ get store k
    pub holds : Holds f r.1.store (i + count)

  Holds-without :
      (f : ℕ → T) (store : Dict ℕ T) (i : ℕ) → Holds f store i → Holds f (without store i) (suc i)
  Holds-without f store i h = record {
    event = λ k t e. ground (arith, get-without store i k, h.event k t);
  }

  Drained-stop :
      (f : ℕ → T) (store : Dict ℕ T) (i : ℕ) (ret : List (ℕ × T))
      → get store i ≡ none
      → Holds f store i
      → Drained f store i ret (ret, record { store = store; next_idx_to_release = i })
  Drained-stop f store i ret e s = record {
    count = 0;
    released = rw append-nil;
    next = omega arith;
    stops = rw add-zero e;
    kept = λ k _. refl;
    holds = rw add-zero s;
  }

  Drained-step :
      (f : ℕ → T) (store : Dict ℕ T) (i : ℕ) (ret : List (ℕ × T)) (t : T)
      (r : List (ℕ × T) × OrderedBuffer T)
      → f i ≡ t
      → Drained f (without store i) (suc i) (ret ++ (i, t) ∷ []) r
      → Drained f store i ret r
  Drained-step f store i ret t r e d =
      let shift : suc i + d.count ≡ i + suc d.count = omega arith in
      record {
        count = suc d.count;
        released = d.released ∙ append_assoc ret ((i, t) ∷ []) _ ∙ rw e;
        next = d.next ∙ shift;
        stops = rw shift at d.stops;
        kept = λ k h. ground (arith, d.kept k, get-without store i k);
        holds = rw shift at d.holds;
      }

  drain_loop-Drained :
      (fuel : ℕ) (f : ℕ → T) (store : Dict ℕ T) (i : ℕ) (ret : List (ℕ × T))
      → length store ≤ fuel
      → Holds f store i
      → Drained f store i ret (drain_loop fuel store i ret)
  unfolding drain_loop
  drain_loop-Drained zero f store i ret h s =
      Drained-stop f store i ret (get-nil_length store i (omega arith)) s
  drain_loop-Drained (suc fuel) f store i ret h s = elim (Option-cases (get store i)) [
    | inl e ↦ rw (e, drain_loop) (Drained-stop f store i ret e s)
    | inr (t, e) ↦
        rw (e, drain_loop)
          (Drained-step f store i ret t _ (s.event i t e).0 (
            drain_loop-Drained fuel f (without store i) (suc i) (ret ++ (i, t) ∷ [])
              (omega (arith, length-without_found store i t e)) (Holds-without f store i s)))
  ]

  -- A drain of a buffer that holds events of the stream `f` releases the events from its next
  -- index on, up to the first one that is missing; it keeps the events behind that one.
  pub drain_indexed-Drained :
      (f : ℕ → T) (b : OrderedBuffer T)
      → Holds f b.store b.next_idx_to_release
      → Drained f b.store b.next_idx_to_release [] (drain_indexed b)
  unfolding drain_indexed
  drain_indexed-Drained f b s = drain_loop-Drained (length b.store) f b.store _ [] (omega arith) s
