-- ===== src/Utils/EventBuffer/Sources.antt =====
-- `MultiSourceBuffer` keeps its sources apart.
use agent_setup.Base.{ℕ, ◌≡◌, refl, List, [], ◌∷◌, arith, if◌then◌else◌}
use agent_setup.Base.Eq.{Eq, ◌==◌}
use agent_setup.Base.Dict.{get, insert, get-insert}
use agent_setup.Base.Result.{Result, ok, raise, ◌>>=◌}
use agent_setup.Utils.EventBuffer.{
  OrderedBuffer, MultiSourceBuffer, ingest, drain, drain_indexed, drain_loop, buffer_of,
  multi_ingest, multi_drain,
}

module _ {ℓ} {T : Type ℓ} ⦃e : Eq T⦄ where
  pub ingest_all : OrderedBuffer T → List (ℕ × T) → Result (OrderedBuffer T)
  ingest_all b [] = ok b
  ingest_all b ((idx, t) ∷ xs) = ingest b idx t >>= λ b'. ingest_all b' xs

module _ {ℓ κ} {S : Type ℓ} {T : Type κ} ⦃s : Eq S⦄ where
  -- What one source sent, in the order in which it arrived.
  pub sent_by : S → List (S × ℕ × T) → List (ℕ × T)
  sent_by source [] = []
  sent_by source ((j, idx, t) ∷ xs) =
      let rest = sent_by source xs in if j == source then (idx, t) ∷ rest else rest

module _ {ℓ κ} {S : Type ℓ} {T : Type κ} ⦃s : Eq S⦄ ⦃e : Eq T⦄ where
  unfoldable pub multi_ingest_all :
      MultiSourceBuffer S T → List (S × ℕ × T) → Result (MultiSourceBuffer S T)
  multi_ingest_all m [] = ok m
  multi_ingest_all m ((source, idx, t) ∷ xs) =
      multi_ingest m idx t source >>= λ m'. multi_ingest_all m' xs

  pub buffer_of-insert :
      (m : MultiSourceBuffer S T) (j k : S) (b : OrderedBuffer T)
      → buffer_of (insert m j b) k ≡ (if j == k then b else buffer_of m k)
  unfolding buffer_of
  buffer_of-insert m j k b = rw get-insert (ground arith)

  -- If every ingest succeeds, the buffer of each source is what it would be if that source alone
  -- had sent its events, in the same order, to a buffer of its own.
  pub sources_apart :
      (source : S) (xs : List (S × ℕ × T)) (m m' : MultiSourceBuffer S T)
      → multi_ingest_all m xs ≡ ok m'
      → ingest_all (buffer_of m source) (sent_by source xs) ≡ ok (buffer_of m' source)
  unfolding multi_ingest_all ingest_all sent_by multi_ingest
  sources_apart source [] m m' h = ground arith
  sources_apart source ((j, idx, t) ∷ xs) m m' h =
      at_first (ingest (buffer_of m j) idx t) refl h (λ m1. sources_apart source xs m1 m')
    where
      at_first :
          (r : Result (OrderedBuffer T))
          → ingest (buffer_of m j) idx t ≡ r
          → ((r >>= λ b. ok (insert m j b)) >>= λ m1. multi_ingest_all m1 xs) ≡ ok m'
          → ((m1 : MultiSourceBuffer S T)
              → multi_ingest_all m1 xs ≡ ok m'
              → ingest_all (buffer_of m1 source) (sent_by source xs) ≡ ok (buffer_of m' source))
          → ingest_all (buffer_of m source) (sent_by source ((j, idx, t) ∷ xs))
            ≡ ok (buffer_of m' source)
      at_first (raise x) e1 h1 ih = absurd (ground arith)
      at_first (ok b) e1 h1 ih =
          ground (arith, ih (insert m j b), buffer_of-insert m j source b, s.is_equal_iff j source)

  pub multi_drain_each :
      (m : MultiSourceBuffer S T) (source : S)
      → buffer_of (multi_drain m).1 source ≡ (drain (buffer_of m source)).1
  unfolding buffer_of multi_drain get drain drain_indexed drain_loop
  multi_drain_each [] source = refl
  multi_drain_each ((j, b) ∷ m) source = ground (arith, multi_drain_each m source)
