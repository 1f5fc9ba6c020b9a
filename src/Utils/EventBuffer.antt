-- ===== src/Utils/EventBuffer.antt =====
-- src/exo/utils/event_buffer.py: `OrderedBuffer`, which puts events that arrive in any order back
-- into the order of their indices, and `MultiSourceBuffer`, one such buffer for each source.
pub mod Stream
pub mod Sources
mod Samples
pub mod Drain
pub mod Resequence
pub mod Exact
use agent_setup.Base.{
  ℕ, zero, suc, ◌+◌, Bool, true, false, Option, none, some, List, [], ◌∷◌, ◌++◌, ltb, length, map,
  if◌then◌else◌,
}
use agent_setup.Base.Eq.{Eq, ◌==◌, number_eq}
use agent_setup.Base.Dict.{Dict, get, insert, without}
use agent_setup.Base.Result.{Result, ok, raise, assertion_error, ◌>>=◌}

pub record OrderedBuffer {ℓ} (T : Type ℓ) : Type ℓ where
  pub store : Dict ℕ T
  pub next_idx_to_release : ℕ

module _ {ℓ} {T : Type ℓ} where
  abbrev pub empty : OrderedBuffer T
  empty = record { store = []; next_idx_to_release = 0 }

  -- The index is new to the store: it is kept. It is there already: the events must be equal.
  ingest_at : ⦃e : Eq T⦄ → OrderedBuffer T → ℕ → T → Option T → Result (OrderedBuffer T)
  ingest_at b idx t none = ok (record b { store = insert b.store idx t })
  ingest_at b idx t (some old) = if old == t then ok b else raise assertion_error

  unfoldable pub ingest : ⦃e : Eq T⦄ → OrderedBuffer T → ℕ → T → Result (OrderedBuffer T)
  unfolding ingest_at
  ingest b idx t =
      if ltb idx b.next_idx_to_release then ok b else ingest_at b idx t (get b.store idx)

  -- The `while` loop of the two drains, on fuel: each round takes one event out of the store.
  pub drain_loop : ℕ → Dict ℕ T → ℕ → List (ℕ × T) → List (ℕ × T) × OrderedBuffer T
  drain_loop zero store idx ret = (ret, record { store = store; next_idx_to_release = idx })
  drain_loop (suc fuel) store idx ret = elim (get store idx) [
    | none ↦ (ret, record { store = store; next_idx_to_release = idx })
    | some event ↦ drain_loop fuel (without store idx) (suc idx) (ret ++ (idx, event) ∷ [])
  ]

  unfoldable pub drain_indexed : OrderedBuffer T → List (ℕ × T) × OrderedBuffer T
  drain_indexed b = drain_loop (length b.store) b.store b.next_idx_to_release []

  unfoldable pub drain : OrderedBuffer T → List T × OrderedBuffer T
  unfolding drain_indexed
  drain b = let (ret, b') = drain_indexed b in (map (λ p. p.1) ret, b')

or_empty {ℓ} : {T : Type ℓ} → Option (OrderedBuffer T) → OrderedBuffer T
or_empty none = empty
or_empty (some b) = b

-- `MultiSourceBuffer.stores`.
abbrev pub MultiSourceBuffer {ℓ κ} : Type ℓ → Type κ → Type (ℓ ⊔ κ)
MultiSourceBuffer S T = Dict S (OrderedBuffer T)

module _ {ℓ κ} {S : Type ℓ} {T : Type κ} ⦃s : Eq S⦄ ⦃e : Eq T⦄ where
  -- The buffer of a source; a source that is not known yet has an empty one.
  unfoldable pub buffer_of : MultiSourceBuffer S T → S → OrderedBuffer T
  unfolding or_empty
  buffer_of m source = or_empty (get m source)

  unfoldable pub multi_ingest : MultiSourceBuffer S T → ℕ → T → S → Result (MultiSourceBuffer S T)
  unfolding buffer_of
  multi_ingest m idx t source = do
    buffer ← ingest (buffer_of m source) idx t
    ok (insert m source buffer)

  unfoldable pub multi_drain : MultiSourceBuffer S T → List T × MultiSourceBuffer S T
  multi_drain [] = ([], [])
  multi_drain ((source, buffer) ∷ m) =
      let (released, buffer') = drain buffer in
      let (rest, m') = multi_drain m in (released ++ rest, (source, buffer') ∷ m')
