-- ===== src/Master/Placement/Choice/Filters.antt =====
-- placement.py: what each of the filters of `place_instance` keeps.
use mathlib.Core.List.{Memᴰ}
use text.Mathlib.Text.{starts_with}
use agent_setup.Base.Eq.{◌==◌, text_eq}
use agent_setup.Base.{
  &&-eq-true, ◌%◌, ◌↔◌, Option, none, some, false≢true, ℕ, ◌≤◌, ◌≡◌, refl, sym, subst, ◌∙◌, Bool,
  true, false, not, List, [], ◌∷◌, inl, inr, Bool-cases, length, keep_if, keep_if-Mem,
  keep_if-keeps, arith, ltb, nat_beq, nat_beq_iff, if◌then◌else◌,
}
use agent_setup.Base.Result.{Result, ok, raise, value_error, ◌>>◌, ok-injective}
use agent_setup.Types.Workers.{ModelCard}
use agent_setup.Master.Placement.Shards.{Sharding, by_pipeline, by_tensor, require, is_nil}
use agent_setup.Master.Placement.Cycles.{
  Cycle, filter_by_sharding, fits_tensor, heads_divide, get_smallest_cycles, shortest, best_cycle,
  best_from,
}

pub required :
    {B : Type 0} (b : Bool) (r : Result B) (x : B)
    → (require b >> r) ≡ ok x
    → (b ≡ true) × (r ≡ ok x)
required true r x h = (refl, h)
required false r x h = absurd (cc)

-- What `keep_if`, and the refusal of an empty rest, leave.
pub kept :
    (test : Cycle → Bool) (cycles rest : List Cycle)
    → (require (not (is_nil (keep_if test cycles))) >> ok (keep_if test cycles)) ≡ ok rest
    → rest ≡ keep_if test cycles
kept test cycles rest h = let (some_, e) = required _ _ rest h in sym (ok-injective _ rest e)

best_from-Mem :
    (below : Cycle → Cycle → Bool) (best : Cycle) (cycles : List Cycle)
    → Memᴰ (best_from below best cycles) (best ∷ cycles)
unfolding best_from
best_from-Mem below best [] = Memᴰ.head refl
best_from-Mem below best (c ∷ cycles) = elim (Bool-cases (below best c)) [
  | inl less ↦ rw less (Memᴰ.tail (best_from-Mem below c cycles))
  | inr more ↦ rw more (skip (best_from-Mem below best cycles))
]
  where
    skip : {a : Cycle} → Memᴰ a (best ∷ cycles) → Memᴰ a (best ∷ c ∷ cycles)
    skip (Memᴰ.head e) = Memᴰ.head e
    skip (Memᴰ.tail m) = Memᴰ.tail (Memᴰ.tail m)

pub best_cycle-Mem :
    (below : Cycle → Cycle → Bool) (cycles : List Cycle) (c : Cycle)
    → best_cycle below cycles ≡ ok c
    → Memᴰ c cycles
unfolding best_cycle
best_cycle-Mem below [] c h = absurd (cc)
best_cycle-Mem below (d ∷ cycles) c h =
    subst (λ a. Memᴰ a (d ∷ cycles)) (ok-injective _ c h) (best_from-Mem below d cycles)

-- `min(len(cycle) for cycle in cycles)` is below every length.
shortest-le :
    (n : ℕ) (cycles : List Cycle)
    → (shortest n cycles ≤ n) × ((c : Cycle) → Memᴰ c cycles → shortest n cycles ≤ length c)
unfolding shortest
shortest-le n [] = (omega arith, λ c m. elim m [ ])
shortest-le n (d ∷ cycles) =
    let next : ℕ = if ltb (length d) n then length d else n in
    let (low, rest) = shortest-le next cycles in
    let below : (next ≤ n) × (next ≤ length d) = ground arith in
    let below_n = below.0 in
    let below_d = below.1 in (omega arith, λ c m. at c m (omega arith) rest)
  where
    at :
        {k : ℕ} (c : Cycle)
        → Memᴰ c (d ∷ cycles)
        → k ≤ length d
        → ((e : Cycle) → Memᴰ e cycles → k ≤ length e)
        → k ≤ length c
    at c (Memᴰ.head e) le rest = rw e le
    at c (Memᴰ.tail m) le rest = rest c m

-- The smallest cycles are cycles that are not longer than any.
pub get_smallest_cycles-Mem :
    (cycles smallest : List Cycle) (c : Cycle)
    → get_smallest_cycles cycles ≡ ok smallest
    → Memᴰ c smallest
    → Memᴰ c cycles × ((d : Cycle) → Memᴰ d cycles → length c ≤ length d)
unfolding get_smallest_cycles
get_smallest_cycles-Mem [] smallest c h m = absurd (cc)
get_smallest_cycles-Mem (e ∷ cycles) smallest c h m =
    let n = shortest (length e) cycles in
    let (member, test) =
      keep_if-Mem (λ (x : Cycle). nat_beq (length x) n) (e ∷ cycles) c
        (subst (λ l. Memᴰ c l) (sym (ok-injective _ smallest h)) m) in
    let same : length c ≡ n = (nat_beq_iff (length c) n).0 test in
    let (first, rest) = shortest-le (length e) cycles in
    (
      member,
      λ d k.
          within d k (subst (λ k'. k' ≤ length e) (sym same) first)
            (λ x q. subst (λ k'. k' ≤ length x) (sym same) (rest x q)),
    )
  where
    within :
        {k : ℕ} (d : Cycle)
        → Memᴰ d (e ∷ cycles)
        → k ≤ length e
        → ((x : Cycle) → Memᴰ x cycles → k ≤ length x)
        → k ≤ length d
    within d (Memᴰ.head p) le rest = rw p le
    within d (Memᴰ.tail p) le rest = rest d p

-- The conditions that the kind of sharding puts on a model and a cycle.
abbrev pub MayShard : ModelCard → Sharding → Cycle → Type 0
MayShard card by_tensor c =
    (card.supports_tensor ≡ true)
    × (card.hidden_size % length c ≡ 0)
    × ((k : ℕ)
        → card.num_key_value_heads ≡ some k
        → starts_with card.base_model "DeepSeek V4" ≡ false
        → k % length c ≡ 0)
MayShard card by_pipeline c =
    ((card.model_id == "mlx-community/DeepSeek-V3.1-8bit") ≡ false)
    × (starts_with card.base_model "Gemma 4" ≡ true → length c ≡ 1)

heads_divide_iff :
    (card : ModelCard) (n : ℕ) (heads : Option ℕ)
    → (heads_divide card n heads ≡ true)
      ↔ ((k : ℕ) → heads ≡ some k → starts_with card.base_model "DeepSeek V4" ≡ false → k % n ≡ 0)
heads_divide_iff card n none = (λ h k e v4. absurd (cc), λ h. refl)
heads_divide_iff card n (some heads) = (
  λ h k e v4. let e' : heads ≡ k = cc in rw (← e') (ground (arith, nat_beq_iff (heads % n) 0)),
  λ h. elim (Bool-cases (starts_with card.base_model "DeepSeek V4")) [
    | inl v4 ↦ rw v4
    | inr other ↦ rw other ((nat_beq_iff (heads % n) 0).1 (h heads refl other))
  ],
)

fits_tensor_iff :
    (card : ModelCard) (c : Cycle)
    → card.supports_tensor ≡ true
    → (fits_tensor card c ≡ true) ↔ MayShard card by_tensor c
unfolding fits_tensor
fits_tensor_iff card c tensor = (
  λ h.
      let (a, b) = &&-eq-true _ _ h in
      (
        tensor,
        (nat_beq_iff _ 0).0 a,
        (heads_divide_iff card (length c) card.num_key_value_heads).0 b,
      ),
  λ m.
      rw ((nat_beq_iff _ 0).1 m.1)
        ((heads_divide_iff card (length c) card.num_key_value_heads).1 m.2),
)

-- What the filters keep: the candidates that may be sharded so.
pub filter_by_sharding-Mem :
    (card : ModelCard) (sharding : Sharding) (cycles rest : List Cycle) (c : Cycle)
    → filter_by_sharding card sharding cycles ≡ ok rest
    → Memᴰ c rest ↔ (Memᴰ c cycles × MayShard card sharding c)
unfolding filter_by_sharding
filter_by_sharding-Mem card by_tensor cycles rest c h =
    let (tensor, h1) = required card.supports_tensor _ rest h in
    let e = kept (fits_tensor card) cycles rest h1 in
    (
      λ m.
          let (member, fits) =
            keep_if-Mem (fits_tensor card) cycles c (subst (λ l. Memᴰ c l) e m) in
          (member, (fits_tensor_iff card c tensor).0 fits),
      λ m.
          subst (λ l. Memᴰ c l) (sym e)
            (keep_if-keeps (fits_tensor card) cycles c m.0 ((fits_tensor_iff card c tensor).1 m.1)),
    )
filter_by_sharding-Mem card by_pipeline cycles rest c h =
    elim (Bool-cases (card.model_id == "mlx-community/DeepSeek-V3.1-8bit")) [
      | inl deep ↦ absurd (refused (rw deep at h))
      | inr other ↦ elim (Bool-cases (starts_with card.base_model "Gemma 4")) [
        | inl gemma ↦
            let e =
              kept (λ (x : Cycle). nat_beq (length x) 1) cycles rest (rw (other, gemma) at h) in
            (
              λ m.
                  let (member, one) =
                    keep_if-Mem (λ (x : Cycle). nat_beq (length x) 1) cycles c
                      (subst (λ l. Memᴰ c l) e m) in
                  (member, (other, λ g. (nat_beq_iff (length c) 1).0 one)),
              λ m.
                  subst (λ l. Memᴰ c l) (sym e)
                    (keep_if-keeps (λ (x : Cycle). nat_beq (length x) 1) cycles c m.0
                      ((nat_beq_iff (length c) 1).1 (m.1.1 gemma))),
            )
        | inr plain ↦
            let e = ok-injective cycles rest (rw (other, plain) at h) in
            (
              λ m. (
                subst (λ l. Memᴰ c l) (sym e) m,
                (other, λ g. absurd (false≢true (sym plain ∙ g))),
              ),
              λ m. subst (λ l. Memᴰ c l) e m.0,
            )
      ]
    ]
  where
    refused : raise value_error ≡ ok rest → ⊥
    refused q = cc
