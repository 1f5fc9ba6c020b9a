-- ===== src/Utils/EventBuffer/Resequence.antt =====
-- What `OrderedBuffer` promises its clients.
use agent_setup.Base.{
  ℕ, ◌≤◌, ◌<◌, ◌≡◌, ◌≢◌, ◌↔◌, refl, none, some, List, [], ◌∷◌, ◌++◌, arith, inl, inr, Bool-cases,
  Option-cases, ltb, ltb→lt, ◌+◌,
}
use mathlib.Core.List.{Memᴰ}
use agent_setup.Base.Eq.{Eq, number_eq}
use agent_setup.Base.Dict.{get}
use agent_setup.Base.Result.{Result, ok, raise, assertion_error, ◌>>=◌}
use agent_setup.Utils.EventBuffer.{OrderedBuffer, empty, ingest, drain_indexed}
use agent_setup.Utils.EventBuffer.Drain.{segment, Drained, drain_indexed-Drained}
use agent_setup.Utils.EventBuffer.Stream.{
  Call, arrive, release, run, FromStream, Valid, Seen, run-Served, segment_from_zero,
}

module _ {ℓ} {T : Type ℓ} ⦃e : Eq T⦄ where
  pub empty-Valid : (f : ℕ → T) → Valid f empty
  empty-Valid f = record { event = λ k t h. absurd (none_some t (unfold get in h)) }
    where
      none_some : (t : T) → none ≡ some t → ⊥
      none_some t h = cc

  run-append :
      (xs ys : List (Call T)) (b : OrderedBuffer T) (out : List (ℕ × T))
      → run b out (xs ++ ys) ≡ (run b out xs >>= λ r. run r.1 r.0 ys)
  unfolding run
  run-append [] ys b out = refl
  run-append (arrive idx t ∷ xs) ys b out =
      append_at (ingest b idx t) (λ b'. run-append xs ys b' out)
    where
      append_at :
          (r : Result (OrderedBuffer T))
          → ((b' : OrderedBuffer T)
              → run b' out (xs ++ ys) ≡ (run b' out xs >>= λ p. run p.1 p.0 ys))
          → (r >>= λ b'. run b' out (xs ++ ys))
            ≡ ((r >>= λ b'. run b' out xs) >>= λ p. run p.1 p.0 ys)
      append_at (ok b') rec = rec b'
      append_at (raise x) rec = refl
  run-append (release ∷ xs) ys b out =
      run-append xs ys (drain_indexed b).1 (out ++ (drain_indexed b).0)

  -- A drained buffer has not seen the event under its next index.
  arrived_le :
      (f : ℕ → T) (b : OrderedBuffer T) (n : ℕ)
      → Drained f b.store b.next_idx_to_release [] (drain_indexed b)
      → ((k : ℕ) → k < n → Seen f k b)
      → n ≤ (drain_indexed b).1.next_idx_to_release
  arrived_le f b n d seen = elim (Bool-cases (ltb (b.next_idx_to_release + d.count) n)) [
    | inl short ↦ absurd (missing (seen _ (ltb→lt _ _ short)))
    | inr enough ↦ rw d.next (ground arith)
  ]
    where
      missing : Seen f (b.next_idx_to_release + d.count) b → ⊥
      missing (inl lt) = omega arith
      missing (inr there) = cc (d.kept (b.next_idx_to_release + d.count) (omega arith), d.stops)

  -- Whatever the order of the arrivals, the repetitions among them and the places of the drains:
  -- if each arrival carries the stream's event of its index, no call raises, and the drains
  -- together release the beginning of the stream, each event once, under its index, in order.
  pub run_in_order :
      (f : ℕ → T) (calls : List (Call T))
      → FromStream f calls
      → (b : OrderedBuffer T) × (run empty [] calls ≡ ok (segment f 0 b.next_idx_to_release, b))
  run_in_order f calls all =
      let s = run-Served f calls empty all (empty-Valid f) in (s.last, s.returns)

  -- If each arrival carries the stream's event of its index and the first `n` events of the stream
  -- have all arrived, in any order, with repetitions and drains anywhere between, then no call
  -- raises and a drain at the end has released them all, in order.
  pub run_complete :
      (f : ℕ → T) (calls : List (Call T)) (n : ℕ)
      → FromStream f calls
      → ((k : ℕ) → k < n → Memᴰ (arrive k (f k)) calls)
      → (b : OrderedBuffer T) × (run empty [] (calls ++ release ∷ [])
          ≡ ok (segment f 0 b.next_idx_to_release, b))
        × (n ≤ b.next_idx_to_release)
  run_complete f calls n all arrived =
      let s = run-Served f calls empty all (empty-Valid f) in
      let d = drain_indexed-Drained f s.last s.valid in
      (
        (drain_indexed s.last).1,
        rw (run-append, s.returns)
            (unfold run in
              rw (d.released, segment_from_zero f s.last.next_idx_to_release d.count, ← d.next)),
        arrived_le f s.last n d (λ k lt. s.seen k (inr (arrived k lt))),
      )

  -- An ingest raises exactly when the index has not been released yet and the store holds
  -- another event under it.
  pub ingest_conflict :
      (b : OrderedBuffer T) (idx : ℕ) (t : T)
      → (ingest b idx t ≡ raise assertion_error)
        ↔ ((b.next_idx_to_release ≤ idx) × ((old : T) × (get b.store idx ≡ some old) × (old ≢ t)))
  unfolding ingest
  ingest_conflict b idx t = (raised, conflict)
    where
      raised :
          ingest b idx t ≡ raise assertion_error
          → (b.next_idx_to_release ≤ idx) × ((old : T) × (get b.store idx ≡ some old) × (old ≢ t))
      raised h = elim (Bool-cases (ltb idx b.next_idx_to_release)) [
        | inl old ↦ absurd (ground arith)
        | inr new ↦ elim (Option-cases (get b.store idx)) [
          | inl free ↦ absurd (ground arith)
          | inr (old, there) ↦
              (ground arith, (old, there, λ p. ground (arith, e.is_equal_iff old t)))
        ]
      ]

      conflict :
          (b.next_idx_to_release ≤ idx) × ((old : T) × (get b.store idx ≡ some old) × (old ≢ t))
          → ingest b idx t ≡ raise assertion_error
      conflict (le, (old, there, ne)) = ground (arith, e.is_equal_iff old t)
