-- ===== src/Master/Placement/Allocation/Fill.antt =====
-- The last loop of the allocation leaves no node without a layer.
use agent_setup.Base.{
  ℕ, zero, suc, ◌+◌, ◌-◌, ◌≤◌, ◌<◌, ◌≡◌, refl, sym, ◌∙◌, true, false, some, List, arith, ltb,
  nat_beq, nat_beq_iff, length, get_elem?, modify, Bool-cases, inl, inr, ltb→lt, subst,
}
use agent_setup.Base.Seq.{
  sum, list_max, arg_max, length-modify, get-modify_self, get-modify_other, get_within, get_inside,
  sum-modify, get-arg_max, sum_with_zero,
}
use agent_setup.Base.Result.{Result, ok}
use agent_setup.Master.Placement.Allocation.{fill, fill_one, take_from_largest}

-- The first `i` entries are positive, and there are `total` layers over `n` nodes.
pub record Filled (n total i : ℕ) (xs : List ℕ) : Type 0 where
  pub count : length xs ≡ n
  pub layers : sum xs ≡ total
  pub positive : (j v : ℕ) → j < i → get_elem? xs j ≡ some v → 0 < v

-- A run that returns a list of which P holds.
abbrev pub Yields : (List ℕ → Type 0) → Result (List ℕ) → Type 0
Yields P r = (xs : List ℕ) × (r ≡ ok xs) × P xs

module _ (n total i : ℕ) (xs : List ℕ) (f : Filled n total i xs) where
  already_positive : (v : ℕ) → get_elem? xs i ≡ some v → 0 < v → Filled n total (suc i) xs
  already_positive v h p = record {
    count = f.count;
    layers = f.layers;
    positive = λ j w lt e. elim (Bool-cases (nat_beq j i)) [
      | inl same ↦
          let same' : j ≡ i = ground (arith, nat_beq_iff j i) in
          let e' : some w ≡ some v = sym (rw same' at e) ∙ h in ground arith
      | inr other ↦ f.positive j w (ground (arith, nat_beq_iff j i)) e
    ];
  }

  largest : get_elem? xs i ≡ some 0 → get_elem? xs (arg_max xs) ≡ some (list_max xs)
  largest h = let lt = get_inside xs i 0 h in get-arg_max xs (omega arith)

  -- The largest is not the empty one.
  apart : get_elem? xs i ≡ some 0 → 1 < list_max xs → nat_beq (arg_max xs) i ≡ false
  apart h big = elim (Bool-cases (nat_beq (arg_max xs) i)) [
    | inl same ↦
        let e : arg_max xs ≡ i = ground (arith, nat_beq_iff (arg_max xs) i) in
        let clash : some 0 ≡ some (list_max xs) = sym h ∙ (rw e at (largest h)) in
        absurd (ground arith)
    | inr other ↦ other
  ]

  lowered : List ℕ
  lowered = modify xs (arg_max xs) (λ v. v - 1)

  lowered_positive :
      get_elem? xs i ≡ some 0
      → 1 < list_max xs
      → (j v : ℕ) → j < i
      → get_elem? lowered j ≡ some v
      → 0 < v
  unfolding lowered
  lowered_positive h big j v lt e = elim (Bool-cases (nat_beq (arg_max xs) j)) [
    | inl same ↦
        let at : arg_max xs ≡ j = ground (arith, nat_beq_iff (arg_max xs) j) in
        let got = get-modify_self xs (arg_max xs) (λ v. v - 1) (list_max xs) (largest h) in
        let e' : some v ≡ some (list_max xs - 1) =
          sym e ∙ subst (λ k. get_elem? lowered k ≡ some (list_max xs - 1)) at got in
        ground arith
    | inr other ↦
        f.positive j v lt (sym (get-modify_other xs (arg_max xs) j (λ v. v - 1) other) ∙ e)
  ]

  -- One layer goes from the largest to the empty node at i.
  taken :
      get_elem? xs i ≡ some 0
      → 1 < list_max xs
      → Filled n total (suc i) (modify (modify xs (arg_max xs) (λ v. v - 1)) i (λ v. 1))
  unfolding lowered
  taken h big =
      let at_i : get_elem? lowered i ≡ some 0 =
        get-modify_other xs (arg_max xs) i (λ v. v - 1) (apart h big) ∙ h in
      let less = sum-modify xs (arg_max xs) (λ v. v - 1) (list_max xs) (largest h) in
      let more = sum-modify lowered i (λ v. 1) 0 at_i in
      let same = f.layers in
      record {
        count = rw (length-modify, length-modify) f.count;
        layers = omega arith;
        positive = λ j v lt e. elim (Bool-cases (nat_beq i j)) [
          | inl here ↦
              let at : i ≡ j = ground (arith, nat_beq_iff i j) in
              let e' : some v ≡ some 1 =
                sym e
                ∙ subst (λ k. get_elem? (modify lowered i (λ v. 1)) k ≡ some 1) at
                    (get-modify_self lowered i (λ v. 1) 0 at_i) in
              ground arith
          | inr other ↦
              lowered_positive h big j v (ground (arith, nat_beq_iff i j))
                (sym (get-modify_other lowered i j (λ v. 1) other) ∙ e)
        ];
      }

  big_enough : n ≤ total → get_elem? xs i ≡ some 0 → 1 < list_max xs
  big_enough le h = elim (Bool-cases (ltb 1 (list_max xs))) [
    | inl big ↦ ltb→lt _ _ big
    | inr small ↦
        let few = sum_with_zero xs i h (ground arith) in
        let c = f.count in let l = f.layers in absurd (omega arith)
  ]

  fill_one-Filled :
      n ≤ total → i < n → Yields (Filled n total (suc i)) (fill_one i xs (get_elem? xs i))
  unfolding fill_one take_from_largest
  fill_one-Filled le lt =
      let (v, h) = get_within xs i (rw f.count lt) in
      elim (Bool-cases (nat_beq v 0)) [
        | inl empty ↦
            let zero_ : v ≡ 0 = ground (arith, nat_beq_iff v 0) in
            let h0 : get_elem? xs i ≡ some 0 = rw zero_ at h in
            let big = big_enough le h0 in
            let big' : ltb 1 (list_max xs) ≡ true = ground arith in
            (modify (modify xs (arg_max xs) (λ v. v - 1)) i (λ v. 1), rw (h0, big'), taken h0 big)
        | inr full ↦ (xs, rw (h, full), already_positive v h (ground (arith, nat_beq_iff v 0)))
      ]

-- With at least as many layers as nodes the loop returns, and every node has a layer.
pub fill-Filled :
    (k n total i : ℕ) (xs : List ℕ)
    → n ≤ total
    → i + k ≡ n
    → Filled n total i xs
    → Yields (Filled n total n) (fill k i xs)
unfolding fill
fill-Filled zero n total i xs le e f = let at : i ≡ n = omega arith in (xs, refl, rw at at f)
fill-Filled (suc k) n total i xs le e f =
    let (ys, returns, g) = fill_one-Filled n total i xs f le (omega arith) in
    rw returns (fill-Filled k n total (suc i) ys le (omega arith) g)
