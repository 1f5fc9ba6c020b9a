-- ===== src/Utils/EventBuffer/Exact.antt =====
-- What the drains release when nothing beyond a stream's first events has arrived.
use native.Mathlib.Nat.{add-zero, zero-add}
use agent_setup.Base.{
  ℕ, zero, suc, ◌+◌, ◌≤◌, ◌<◌, ◌≡◌, ◌≢◌, ap, some, List, [], ◌∷◌, ◌++◌, arith, inl, inr, true,
  false, Bool-cases, if◌then◌else◌, nat_beq, nat_beq_iff, ltb, ltb→lt, get_elem?,
}
use mathlib.Core.List.{Memᴰ}
use agent_setup.Base.Eq.{Eq}
use agent_setup.Base.Result.{ok}
use agent_setup.Utils.EventBuffer.{OrderedBuffer, empty}
use agent_setup.Utils.EventBuffer.Drain.{segment}
use agent_setup.Utils.EventBuffer.Stream.{Call, arrive, release, run, FromStream}
use agent_setup.Utils.EventBuffer.Resequence.{run_in_order, run_complete}

module _ {ℓ} {T : Type ℓ} where
  get-segment :
      (f : ℕ → T) (i n k : ℕ) → k < n → get_elem? (segment f i n) k ≡ some (i + k, f (i + k))
  get-segment f i zero k lt = absurd (omega arith)
  get-segment f i (suc n) zero lt = rw add-zero
  get-segment f i (suc n) (suc k) lt =
      let shift : i + suc k ≡ suc i + k = omega arith in
      rw shift (get-segment f (suc i) n k (omega arith))

  -- The stream with another event under `n`.
  replaced : (ℕ → T) → ℕ → T → ℕ → T
  replaced f n t i = if nat_beq i n then t else f i

  clash :
      (f : ℕ → T) (n : ℕ) (other : T) (m k : ℕ)
      → f n ≢ other
      → segment f 0 m ≡ segment (replaced f n other) 0 k
      → m ≡ k
      → n < m
      → ⊥
  unfolding replaced
  clash f n other m k ne same next lt =
      let mine = get-segment f 0 m n lt in
      let theirs = get-segment (replaced f n other) 0 k n (omega arith) in
      let self : nat_beq n n ≡ true = ground (arith, nat_beq_iff n n) in
      ne (cc (rw (zero-add) at mine, rw (zero-add, self) at theirs, same))

  module _ ⦃e : Eq T⦄ where
    appended :
        (i : ℕ) (t : T) (calls : List (Call T))
        → Memᴰ (arrive i t) (calls ++ release ∷ [])
        → Memᴰ (arrive i t) calls
    appended i t [] (Memᴰ.head p) = absurd (cc)
    appended i t [] (Memᴰ.tail m) = elim m [ ]
    appended i t (c ∷ calls) (Memᴰ.head p) = Memᴰ.head p
    appended i t (c ∷ calls) (Memᴰ.tail m) = Memᴰ.tail (appended i t calls m)

    replaced-FromStream :
        (f : ℕ → T) (n : ℕ) (other : T) (calls : List (Call T))
        → FromStream f calls
        → ((i : ℕ) (t : T) → Memᴰ (arrive i t) calls → i < n)
        → FromStream (replaced f n other) calls
    unfolding replaced
    replaced-FromStream f n other calls all below i t m =
        let lt = below i t m in
        let apart : nat_beq i n ≡ false = ground (arith, nat_beq_iff i n) in rw apart (all i t m)

    -- An event that has not arrived is not released: the calls cannot tell its value.
    run_bound :
        (f : ℕ → T) (calls : List (Call T)) (n : ℕ) (other : T) (b : OrderedBuffer T)
        → f n ≢ other
        → FromStream f calls
        → ((i : ℕ) (t : T) → Memᴰ (arrive i t) calls → i < n)
        → run empty [] calls ≡ ok (segment f 0 b.next_idx_to_release, b)
        → b.next_idx_to_release ≤ n
    run_bound f calls n other b ne all below h =
        let g = replaced f n other in
        let (b', h') = run_in_order g calls (replaced-FromStream f n other calls all below) in
        let same : segment f 0 b.next_idx_to_release ≡ segment g 0 b'.next_idx_to_release =
          cc (h, h') in
        let next : b.next_idx_to_release ≡ b'.next_idx_to_release =
          let buffers : b ≡ b' = cc (h, h') in
          ap (λ (c : OrderedBuffer T). c.next_idx_to_release) buffers in
        elim (Bool-cases (ltb n b.next_idx_to_release)) [
          | inl lt ↦ absurd (clash f n other _ _ ne same next (ltb→lt _ _ lt))
          | inr ge ↦ ground arith
        ]

    -- Exactly the first `n` events of the stream have arrived, in any order and however often: then
    -- a drain at the end has released them and nothing else. (`other` is any other event.)
    pub run_exact :
        (f : ℕ → T) (calls : List (Call T)) (n : ℕ) (other : T)
        → f n ≢ other
        → FromStream f calls
        → ((k : ℕ) → k < n → Memᴰ (arrive k (f k)) calls)
        → ((i : ℕ) (t : T) → Memᴰ (arrive i t) calls → i < n)
        → (b : OrderedBuffer T) × (run empty [] (calls ++ release ∷ []) ≡ ok (segment f 0 n, b))
    run_exact f calls n other ne all arrived below =
        let (b, returns, le) = run_complete f calls n all arrived in
        let ge =
          run_bound f (calls ++ release ∷ []) n other b ne (λ i t m. all i t (appended i t calls m))
            (λ i t m. below i t (appended i t calls m)) returns in
        let same : b.next_idx_to_release ≡ n = omega arith in (b, rw same at returns)
