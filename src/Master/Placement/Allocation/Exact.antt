-- ===== src/Master/Placement/Allocation/Exact.antt =====
-- The allocation with fractions in place of floats: no rounding.
use native.Mathlib.Nat.{mul-div-le, lt-mul-div-succ, le_of_mul-le-mul_left}
use agent_setup.Base.{
  ℕ, ◌+◌, ◌-◌, ◌*◌, ◌/◌, ◌≤◌, ◌<◌, List, [], ◌∷◌, map, arith, ltb, nat_beq, length,
}
use agent_setup.Base.Seq.{sum}
use agent_setup.Master.Placement.Allocation.{Floats, floors}

abbrev pub fractions : Floats
fractions = record {
  Float = ℕ × ℕ;
  divide = λ a b. (a, b);
  times = λ (f : ℕ × ℕ) k. (f.0 * k, f.1);
  truncate = λ (f : ℕ × ℕ). f.0 / f.1;
  minus = λ (f : ℕ × ℕ) k. (f.0 - k * f.1, f.1);
  of_int = λ k. (k, 1);
  plus = λ (f : ℕ × ℕ) (g : ℕ × ℕ). (f.0 * g.1 + g.0 * f.1, f.1 * g.1);
  equal = λ (f : ℕ × ℕ) (g : ℕ × ℕ). nat_beq (f.0 * g.1) (g.0 * f.1);
  below = λ (f : ℕ × ℕ) (g : ℕ × ℕ). ltb (f.0 * g.1) (g.0 * f.1);
}

-- M times the rounded shares, against the layers times the amounts.
shares :
    (total M : ℕ) (ms : List ℕ)
    → 0 < M
    → (M * sum (floors fractions total (map (λ m. (m, M)) ms)) ≤ sum ms * total)
      × (sum ms * total ≤ M * (sum (floors fractions total (map (λ m. (m, M)) ms)) + length ms))
unfolding sum
shares total M [] pos = (omega arith, omega arith)
shares total M (m ∷ ms) pos =
    let (low, high) = shares total M ms pos in
    let down = mul-div-le (m * total) M in
    let up = lt-mul-div-succ (m * total) pos in (grind arith, grind arith)

-- The shares of all layers by exact fractions, rounded down, are not above the layers in all, and
-- below them by at most one for each node.
pub floors-within :
    (total : ℕ) (ms : List ℕ)
    → 0 < sum ms
    → (sum (floors fractions total (map (λ m. (m, sum ms)) ms)) ≤ total)
      × (total ≤ sum (floors fractions total (map (λ m. (m, sum ms)) ms)) + length ms)
floors-within total ms pos =
    let (low, high) = shares total (sum ms) ms pos in
    (le_of_mul-le-mul_left low pos, le_of_mul-le-mul_left high pos)
