-- ===== src/Master/Placement/Allocation.antt =====
-- placement_utils.py, `allocate_layers_proportionally`. The arithmetic of floats is an interface:
-- its laws are not assumed here.
pub mod Fill
pub mod Total
pub mod Exact
use agent_setup.Base.{
  ℕ, zero, suc, ◌+◌, ◌-◌, Bool, true, false, Option, none, some, List, [], ◌∷◌, map, ltb, nat_beq,
  length, get_elem?, modify, if◌then◌else◌,
}
use agent_setup.Base.Seq.{sum, enumerate, list_max, arg_max, sort_down}
use agent_setup.Base.Result.{Result, ok, raise, index_error, value_error, assert, ◌>>=◌, ◌>>◌}

pub record Floats : Type 1 where
  pub Float : Type 0
  -- a / b
  pub divide : ℕ → ℕ → Float
  -- f * k
  pub times : Float → ℕ → Float
  -- int(f), of an f that is not negative
  pub truncate : Float → ℕ
  -- f - k
  pub minus : Float → ℕ → Float
  -- float(k)
  pub of_int : ℕ → Float
  pub plus : Float → Float → Float
  pub equal : Float → Float → Bool
  -- f < g
  pub below : Float → Float → Bool

-- for i in range(count): result[by_remainder[i]] += 1
unfoldable pub bump : List ℕ → ℕ → List ℕ → Result (List ℕ)
bump order zero result = ok result
bump [] (suc count) result = raise index_error
bump (i ∷ order) (suc count) result = bump order count (modify result i suc)

-- One round of the last loop, at position i.
take_from_largest : ℕ → List ℕ → Result (List ℕ)
take_from_largest i result = do
  assert (ltb 1 (list_max result))
  ok (modify (modify result (arg_max result) (λ v. v - 1)) i (λ v. 1))

unfoldable pub fill_one : ℕ → List ℕ → Option ℕ → Result (List ℕ)
unfolding take_from_largest
fill_one i result none = raise index_error
fill_one i result (some v) = if nat_beq v 0 then take_from_largest i result else ok result

-- The last loop: `n` rounds from position i on.
unfoldable pub fill : ℕ → ℕ → List ℕ → Result (List ℕ)
fill zero i result = ok result
fill (suc n) i result = fill_one i result (get_elem? result i) >>= λ r. fill n (suc i) r

module _ (floats : Floats) where
  open floats use {Float, times, truncate, minus, below}

  -- [(i, raw[i] - result[i]) for i in range(n)]
  unfoldable pub remainders : ℕ → List Float → List (ℕ × Float)
  remainders i [] = []
  remainders i (raw ∷ raws) = (i, minus raw (truncate raw)) ∷ remainders (suc i) raws

  unfoldable pub by_remainder : List Float → List ℕ
  by_remainder raws = map (λ p. p.0) (sort_down (λ p q. below p.1 q.1) (remainders 0 raws))

  -- raw and [int(r) for r in raw]
  abbrev pub raws : ℕ → List Float → List Float
  raws total_layers memory_fractions = map (λ f. times f total_layers) memory_fractions

  abbrev pub floors : ℕ → List Float → List ℕ
  floors total_layers memory_fractions = map truncate (raws total_layers memory_fractions)

  unfoldable pub allocate_layers : ℕ → List Float → Result (List ℕ)
  allocate_layers total_layers memory_fractions =
      let result = floors total_layers memory_fractions in
      if nat_beq (length memory_fractions) 0
      then raise value_error
      else if ltb total_layers (length memory_fractions)
      then raise value_error
      else (bump (by_remainder (raws total_layers memory_fractions)) (total_layers - sum result)
            result
          >>= λ bumped. fill (length memory_fractions) 0 bumped)
