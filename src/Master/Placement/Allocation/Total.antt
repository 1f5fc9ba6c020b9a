-- ===== src/Master/Placement/Allocation/Total.antt =====
-- What the allocation of layers promises.
use agent_setup.Base.{
  ℕ, zero, suc, ◌+◌, ◌-◌, ◌≤◌, ◌<◌, ◌≡◌, refl, sym, ◌∙◌, false, some, List, [], ◌∷◌, map, arith,
  length, nat_beq, nat_beq_iff, ltb, modify, All, subst, get_elem?,
}
use agent_setup.Base.Seq.{
  sum, sort_down, length-modify, sum-modify, get_within, get_inside, length-sort_down,
  All-sort_down,
}
use agent_setup.Master.Placement.Allocation.{
  Floats, floors, raws, bump, remainders, by_remainder, allocate_layers,
}
use agent_setup.Master.Placement.Allocation.Fill.{Yields, fill-Filled}

-- `count` of the entries have one more.
record Bumped (xs : List ℕ) (count : ℕ) (ys : List ℕ) : Type 0 where
  same_count : length ys ≡ length xs
  more : sum ys ≡ sum xs + count

bump-Bumped :
    (order : List ℕ) (count : ℕ) (xs : List ℕ)
    → All (λ i. i < length xs) order
    → count ≤ length order
    → Yields (Bumped xs count) (bump order count xs)
unfolding bump
bump-Bumped order zero xs all le = (xs, refl, record { same_count = refl; more = omega arith })
bump-Bumped [] (suc count) xs all le = absurd (omega arith)
bump-Bumped (i ∷ order) (suc count) xs all le =
    let (x, h) = get_within xs i all.0 in
    let one = sum-modify xs i suc x h in
    let len = length-modify xs i suc in
    let (ys, returns, b) = bump-Bumped order count (modify xs i suc) (rw len all.1) (omega arith) in
    let c = b.same_count in
    let m = b.more in (ys, returns, record { same_count = omega arith; more = omega arith })

length-map : {A B : Type 0} (f : A → B) (xs : List A) → length (map f xs) ≡ length xs
length-map f [] = refl
length-map f (x ∷ xs) = omega (arith, length-map f xs)

All-firsts :
    {B : Type 0} (n : ℕ) (ps : List (ℕ × B))
    → All (λ (p : ℕ × B). p.0 < n) ps
    → All (λ i. i < n) (map (λ p. p.0) ps)
All-firsts n [] all = tt
All-firsts n (p ∷ ps) all = (all.0, All-firsts n ps all.1)

module _ (floats : Floats) where
  open floats use {Float, times, truncate}

  length-remainders : (i : ℕ) (raws : List Float) → length (remainders floats i raws) ≡ length raws
  unfolding remainders
  length-remainders i [] = refl
  length-remainders i (raw ∷ raws) = omega (arith, length-remainders (suc i) raws)

  All-remainders :
      (i n : ℕ) (raws : List Float)
      → i + length raws ≡ n
      → All (λ (p : ℕ × Float). p.0 < n) (remainders floats i raws)
  unfolding remainders
  All-remainders i n [] e = tt
  All-remainders i n (raw ∷ raws) e = (omega arith, All-remainders (suc i) n raws (omega arith))

  length-by_remainder : (raws : List Float) → length (by_remainder floats raws) ≡ length raws
  unfolding by_remainder
  length-by_remainder raws = rw (length-map, length-sort_down) (length-remainders 0 raws)

  All-by_remainder : (raws : List Float) → All (λ i. i < length raws) (by_remainder floats raws)
  unfolding by_remainder
  All-by_remainder raws = All-firsts (length raws) (sort_down _ (remainders floats 0 raws)) (
      All-sort_down _ (λ p. p.0 < length raws) (remainders floats 0 raws)
        (All-remainders 0 (length raws) raws (omega arith)))

  -- Each of the `n` nodes has a layer, and the layers are `total` in all.
  pub record Allocated (total n : ℕ) (xs : List ℕ) : Type 0 where
    pub count : length xs ≡ n
    pub layers : sum xs ≡ total
    pub positive : (j v : ℕ) → get_elem? xs j ≡ some v → 0 < v

  -- For at least one node and at least one layer per node, whatever floats do with the fractions, as
  -- long as the products rounded down are not above the layers in all, and below them by at most
  -- one for each node: the allocation returns, gives every node a layer and gives all layers.
  pub allocate_layers-Allocated :
      (total : ℕ) (fractions : List Float)
      → 0 < length fractions
      → length fractions ≤ total
      → sum (floors floats total fractions) ≤ total
      → total ≤ sum (floors floats total fractions) + length fractions
      → Yields (Allocated total (length fractions)) (allocate_layers floats total fractions)
  unfolding allocate_layers
  allocate_layers-Allocated total fractions some_ enough low high =
      let n = length fractions in
      let products = raws floats total fractions in
      let result = floors floats total fractions in
      let same : length result ≡ n = rw (length-map, length-map) refl in
      let same' : length products ≡ n = rw length-map refl in
      let not_empty : nat_beq n 0 ≡ false = ground (arith, nat_beq_iff n 0) in
      let not_few : ltb total n ≡ false = ground arith in
      let all : All (λ i. i < length result) (by_remainder floats products) =
        subst (λ k. All (λ i. i < k) (by_remainder floats products)) (same' ∙ sym same)
          (All-by_remainder products) in
      let orders = length-by_remainder products in
      let (bumped, returns, b) =
        bump-Bumped (by_remainder floats products) (total - sum result) result all (omega arith) in
      let bc = b.same_count in
      let bm = b.more in
      let (filled, returns', f) = fill-Filled n n total 0 bumped enough (omega arith) (record {
        count = omega arith;
        layers = omega arith;
        positive = λ j v lt e. absurd (omega arith);
      }) in
      (
        filled,
        rw (not_empty, not_few, returns) returns',
        record {
          count = f.count;
          layers = f.layers;
          positive = λ j v e.
              f.positive j v (let lt = get_inside filled j v e in let c = f.count in omega arith) e;
        },
      )
