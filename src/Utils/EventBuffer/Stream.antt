-- ===== src/Utils/EventBuffer/Stream.antt =====
-- The buffer under any sequence of arrivals and drains, as `EventRouter._run_ext_in` and
-- `Master._event_processor` use it.
use native.Mathlib.Nat.{add-zero, zero-add}
use agent_setup.Base.{
  ℕ, zero, suc, ◌+◌, ◌≤◌, ◌<◌, ◌≡◌, refl, sym, ap, ◌∙◌, some, List, [], ◌∷◌, ◌++◌, arith, ◌⊎◌, inl,
  inr, true, Bool-cases, Option-cases, ltb, ltb→lt, subst,
}
use mathlib.Core.List.{Memᴰ}
use agent_setup.Base.Eq.{Eq, ◌==◌, ==_refl, number_eq}
use agent_setup.Base.Dict.{get, insert, get-insert}
use agent_setup.Base.Result.{Result, ok, ◌>>=◌}
use agent_setup.Utils.EventBuffer.{OrderedBuffer, ingest, ingest_at, drain_indexed}
use agent_setup.Utils.EventBuffer.Drain.{segment, Holds, Drained, drain_indexed-Drained}

-- One call of the buffer's client.
pub data Call {ℓ} (T : Type ℓ) : Type ℓ where
  arrive : ℕ → T → Call T
  release : Call T

module _ {ℓ} {T : Type ℓ} ⦃e : Eq T⦄ where
  -- The calls in turn; what the drains release is collected in `out`.
  unfoldable pub run :
      OrderedBuffer T → List (ℕ × T) → List (Call T) → Result (List (ℕ × T) × OrderedBuffer T)
  run b out [] = ok (out, b)
  run b out (arrive idx t ∷ calls) = ingest b idx t >>= λ b'. run b' out calls
  run b out (release ∷ calls) = let (ret, b') = drain_indexed b in run b' (out ++ ret) calls

  -- Every arrival is an event of the stream `f` under its own index.
  abbrev pub FromStream : (ℕ → T) → List (Call T) → Type ℓ
  FromStream f calls = (i : ℕ) (t : T) → Memᴰ (arrive i t) calls → f i ≡ t

  abbrev pub Valid : (ℕ → T) → OrderedBuffer T → Type ℓ
  Valid f b = Holds f b.store b.next_idx_to_release

  -- The event under `k` has been released or is in the store.
  abbrev pub Seen : (ℕ → T) → ℕ → OrderedBuffer T → Type ℓ
  Seen f k b = (k < b.next_idx_to_release) ⊎ (get b.store k ≡ some (f k))

  -- An ingest of the stream's event under its index.
  pub record Ingested (f : ℕ → T) (b : OrderedBuffer T) (idx : ℕ) (r : Result (OrderedBuffer T))
      : Type ℓ where
    pub after : OrderedBuffer T
    pub returns : r ≡ ok after
    pub same_next : after.next_idx_to_release ≡ b.next_idx_to_release
    pub valid : Valid f after
    seen_now : Seen f idx after
    seen_before : (k : ℕ) → Seen f k b → Seen f k after

  insert-Valid :
      (f : ℕ → T) (b : OrderedBuffer T) (idx : ℕ) (k : ℕ) (t : T)
      → Valid f b
      → b.next_idx_to_release ≤ idx
      → get (insert b.store idx (f idx)) k ≡ some t
      → (f k ≡ t) × (b.next_idx_to_release ≤ k)
  insert-Valid f b idx k t v le h = ground (arith, get-insert b.store idx k (f idx), v.event k t)

  insert-Seen :
      (f : ℕ → T) (b : OrderedBuffer T) (idx k : ℕ)
      → Seen f k b
      → Seen f k (record b { store = insert b.store idx (f idx) })
  insert-Seen f b idx k s = ground (arith, get-insert b.store idx k (f idx))

  pub ingest-Ingested :
      (f : ℕ → T) (b : OrderedBuffer T) (idx : ℕ)
      → Valid f b
      → Ingested f b idx (ingest b idx (f idx))
  unfolding ingest
  ingest-Ingested f b idx v = elim (Bool-cases (ltb idx b.next_idx_to_release)) [
    | inl old ↦ record {
      after = b;
      returns = rw old;
      same_next = refl;
      valid = v;
      seen_now = inl (ground arith);
      seen_before = λ k s. s;
    }
    | inr new ↦ elim (Option-cases (get b.store idx)) [
      | inl free ↦ record {
        after = record b { store = insert b.store idx (f idx) };
        returns = rw (new, free, ingest_at);
        same_next = refl;
        valid = record { event = λ k t h. insert-Valid f b idx k t v (ground arith) h };
        seen_now = inr (ground (arith, get-insert b.store idx idx (f idx), ==_refl idx));
        seen_before = insert-Seen f b idx;
      }
      | inr (t, there) ↦ record {
        after = b;
        returns =
            let same : (t == f idx) ≡ true =
              (e.is_equal_iff t (f idx)).1 (sym (v.event idx t there).0) in
            rw (new, there, ingest_at, same);
        same_next = refl;
        valid = v;
        seen_now = inr (there ∙ ap some (sym (v.event idx t there).0));
        seen_before = λ k s. s;
      }
    ]
  ]

  -- What the calls have done from a valid buffer whose output so far is the stream's beginning.
  pub record Served (f : ℕ → T) (b : OrderedBuffer T) (calls : List (Call T))
      (r : Result (List (ℕ × T) × OrderedBuffer T)) : Type ℓ where
    pub last : OrderedBuffer T
    pub returns : r ≡ ok (segment f 0 last.next_idx_to_release, last)
    pub valid : Valid f last
    pub seen : (k : ℕ) → Seen f k b ⊎ Memᴰ (arrive k (f k)) calls → Seen f k last

  segment-append :
      (f : ℕ → T) (i n m : ℕ) → segment f i n ++ segment f (i + n) m ≡ segment f i (n + m)
  segment-append f i zero m = rw (add-zero, zero-add)
  segment-append f i (suc n) m =
      let shift : i + suc n ≡ suc i + n = omega arith in
      let total : suc n + m ≡ suc (n + m) = omega arith in
      rw (shift, total) (ap (λ l. (i, f i) ∷ l) (segment-append f (suc i) n m))

  pub segment_from_zero :
      (f : ℕ → T) (n m : ℕ) → segment f 0 n ++ segment f n m ≡ segment f 0 (n + m)
  segment_from_zero f n m = rw zero-add at (segment-append f 0 n m)

  nil_cases : (k : ℕ) (x : T) → Memᴰ (arrive k x) [] → ⊥
  nil_cases k x m = elim m [ ]

  arrive_cases :
      (k idx : ℕ) (x t : T) (calls : List (Call T))
      → Memᴰ (arrive k x) (arrive idx t ∷ calls)
      → (k ≡ idx) ⊎ Memᴰ (arrive k x) calls
  arrive_cases k idx x t calls (Memᴰ.head p) = inl (cc)
  arrive_cases k idx x t calls (Memᴰ.tail m) = inr m

  release_cases :
      (k : ℕ) (x : T) (calls : List (Call T))
      → Memᴰ (arrive k x) (release ∷ calls)
      → Memᴰ (arrive k x) calls
  release_cases k x calls (Memᴰ.head p) = absurd (cc)
  release_cases k x calls (Memᴰ.tail m) = m

  Served-arrive :
      (f : ℕ → T) (b : OrderedBuffer T) (idx : ℕ) (t : T) (calls : List (Call T))
      → f idx ≡ t
      → (g : Ingested f b idx (ingest b idx (f idx)))
      → Served f g.after calls (run g.after (segment f 0 g.after.next_idx_to_release) calls)
      → Served f b
          (arrive idx t ∷ calls)
          (run b (segment f 0 b.next_idx_to_release) (arrive idx t ∷ calls))
  unfolding run
  Served-arrive f b idx t calls p g rest = record {
    last = rest.last;
    returns = rw (← p, g.returns, ← g.same_next) rest.returns;
    valid = rest.valid;
    seen = λ k s. rest.seen k (earlier k s);
  }
    where
      earlier :
          (k : ℕ)
          → Seen f k b ⊎ Memᴰ (arrive k (f k)) (arrive idx t ∷ calls)
          → Seen f k g.after ⊎ Memᴰ (arrive k (f k)) calls
      earlier k (inl s) = inl (g.seen_before k s)
      earlier k (inr m) = elim (arrive_cases k idx (f k) t calls m) [
        | inl q ↦ inl (subst (λ j. Seen f j g.after) (sym q) g.seen_now)
        | inr n ↦ inr n
      ]

  Served-release :
      (f : ℕ → T) (b : OrderedBuffer T) (calls : List (Call T))
      (d : Drained f b.store b.next_idx_to_release [] (drain_indexed b))
      → Served f
          (drain_indexed b).1
          calls
          (run (drain_indexed b).1 (segment f 0 (drain_indexed b).1.next_idx_to_release) calls)
      → Served f b (release ∷ calls) (run b (segment f 0 b.next_idx_to_release) (release ∷ calls))
  unfolding run
  Served-release f b calls d rest = record {
    last = rest.last;
    returns =
        rw (d.released, segment_from_zero f b.next_idx_to_release d.count, ← d.next) rest.returns;
    valid = rest.valid;
    seen = λ k s. rest.seen k (earlier k s);
  }
    where
      earlier :
          (k : ℕ)
          → Seen f k b ⊎ Memᴰ (arrive k (f k)) (release ∷ calls)
          → Seen f k (drain_indexed b).1 ⊎ Memᴰ (arrive k (f k)) calls
      earlier k (inl (inl lt)) = inl (inl (omega (arith, d.next)))
      earlier k (inl (inr there)) = elim (Bool-cases (ltb k (b.next_idx_to_release + d.count))) [
        | inl lt ↦ inl (inl (omega (arith, d.next, ltb→lt _ _ lt)))
        | inr ge ↦ inl (inr (d.kept k (ground arith) ∙ there))
      ]
      earlier k (inr m) = inr (release_cases k (f k) calls m)

  pub run-Served :
      (f : ℕ → T) (calls : List (Call T)) (b : OrderedBuffer T)
      → FromStream f calls
      → Valid f b
      → Served f b calls (run b (segment f 0 b.next_idx_to_release) calls)
  run-Served f [] b all v = record {
    last = b;
    returns = unfold run in refl;
    valid = v;
    seen = λ k s. elim s [ inl q ↦ q | inr m ↦ absurd (nil_cases k (f k) m) ];
  }
  run-Served f (arrive idx t ∷ calls) b all v =
      let g = ingest-Ingested f b idx v in
      Served-arrive f b idx t calls (all idx t (Memᴰ.head refl)) g
        (run-Served f calls g.after (λ i x m. all i x (Memᴰ.tail m)) g.valid)
  run-Served f (release ∷ calls) b all v =
      let d = drain_indexed-Drained f b v in
      Served-release f b calls d (
        run-Served f calls (drain_indexed b).1 (λ i x m. all i x (Memᴰ.tail m))
          (rw (← d.next) at d.holds))
