-- ===== src/Worker/Disaggregated/Protocol/Ends.antt =====
-- Reading ends.
use agent_setup.Base.{
  ℕ, zero, suc, ◌+◌, ◌-◌, ◌<◌, ◌≡◌, refl, false, inl, inr, Bool-cases, some, List, [], ◌∷◌, ◌++◌,
  length, length-append, leb, arith,
}
use agent_setup.Base.Result.{Result, ok, raise}
use agent_setup.Utils.Frames.{from_bytes}
use agent_setup.Worker.Disaggregated.Protocol.{
  Reader, read_loop, read_exactly, read_frame, then_payload,
}

module _ (reader : Reader) where
  open reader use {Source, read}

  -- A round that goes on ends when the rounds after it do.
  round-ends :
      (fuel n : ℕ) (buf : List ℕ) (s : Source) (p : List ℕ × Source)
      → read s (n - length buf) ≡ p
      → leb n (length buf) ≡ false
      → (length buf < length (buf ++ p.0)
          → (r : Result (List ℕ) × Source) × (read_loop reader fuel n (buf ++ p.0) p.1 ≡ some r))
      → (r : Result (List ℕ) × Source) × (read_loop reader (suc fuel) n buf s ≡ some r)
  unfolding read_loop
  round-ends fuel n buf s ([], s') e short later = rw (e, short) (_, refl)
  round-ends fuel n buf s (b ∷ bs, s') e short later =
      rw (e, short) (later (omega (arith, length-append buf (b ∷ bs))))

  read_loop-ends :
      (fuel n : ℕ) (buf : List ℕ) (s : Source)
      → 0 < fuel
      → n < fuel + length buf
      → (r : Result (List ℕ) × Source) × (read_loop reader fuel n buf s ≡ some r)
  unfolding read_loop
  read_loop-ends zero n buf s some_fuel enough = absurd (omega arith)
  read_loop-ends (suc fuel) n buf s some_fuel enough = elim (Bool-cases (leb n (length buf))) [
    | inl full ↦ rw full ((ok buf, s), refl)
    | inr short ↦
        let p = read s (n - length buf) in
        round-ends fuel n buf s p refl short
          (λ longer. read_loop-ends fuel n (buf ++ p.0) p.1 (ground arith) (omega arith))
  ]

  -- Reading a number of bytes ends, whatever the stream gives: fuel for one byte in each round is
  -- enough.
  pub read_exactly-ends :
      (n : ℕ) (s : Source) → (r : Result (List ℕ) × Source) × (read_exactly reader n s ≡ some r)
  unfolding read_exactly
  read_exactly-ends n s = read_loop-ends (suc n) n [] s (omega arith) (omega arith)

  pub read_frame-ends :
      (s : Source) → (r : Result (List ℕ) × Source) × (read_frame reader s ≡ some r)
  unfolding read_frame
  read_frame-ends s = first (read_exactly-ends 4 s)
    where
      first :
          (r : Result (List ℕ) × Source) × (read_exactly reader 4 s ≡ some r)
          → (r : Result (List ℕ) × Source) × (then_payload reader (read_exactly reader 4 s)
              ≡ some r)
      first ((raise x, s'), e) = rw e (_, refl)
      first ((ok [], s'), e) = rw e (_, refl)
      first ((ok (b ∷ bs), s'), e) = rw e (read_exactly-ends (from_bytes (b ∷ bs)) s')
