-- ===== src/Base/Seq.antt =====
-- Python's lists where positions matter: slices, `sum`, `max` by a key, `sorted`.
use Prim.Native.Nat.{ℕ, zero, suc, ◌+◌, ◌≤◌, ◌<◌}
use mathlib.Core.Path.{◌≡◌, refl, ap}
use mathlib.Core.Bool.{Bool, false}
use mathlib.Core.Logic.{inl, inr}
use mathlib.Core.List.{List, [], ◌∷◌}
use mathlib.Core.Option.{some}
use native.Mathlib.Omega.{arith}
use agent_setup.Base.Tests.{if◌then◌else◌, Bool-cases, nat_beq, ltb}
use agent_setup.Base.Lists.{length, get_elem?, modify, All}

unfoldable pub sum : List ℕ → ℕ
sum [] = 0
sum (x ∷ xs) = x + sum xs

module _ {ℓ} {A : Type ℓ} where
  -- xs[:n]
  unfoldable pub take : ℕ → List A → List A
  take (suc n) (x ∷ xs) = x ∷ take n xs
  take _ _ = []

  -- xs[n:]
  unfoldable pub drop : ℕ → List A → List A
  drop (suc n) (x ∷ xs) = drop n xs
  drop _ xs = xs

  -- enumerate(xs, start=i)
  unfoldable pub enumerate : ℕ → List A → List (ℕ × A)
  enumerate i [] = []
  enumerate i (x ∷ xs) = (i, x) ∷ enumerate (suc i) xs

  pub length-modify : (xs : List A) (i : ℕ) (f : A → A) → length (modify xs i f) ≡ length xs
  unfolding modify
  length-modify [] i f = refl
  length-modify (x ∷ xs) zero f = refl
  length-modify (x ∷ xs) (suc i) f = omega (arith, length-modify xs i f)

  pub get-modify_self :
      (xs : List A) (i : ℕ) (f : A → A) (x : A)
      → get_elem? xs i ≡ some x
      → get_elem? (modify xs i f) i ≡ some (f x)
  unfolding modify
  get-modify_self [] i f x h = absurd (cc)
  get-modify_self (y ∷ xs) zero f x h = let e : y ≡ x = cc in ap (λ z. some (f z)) e
  get-modify_self (y ∷ xs) (suc i) f x h = get-modify_self xs i f x h

  pub get-modify_other :
      (xs : List A) (i j : ℕ) (f : A → A)
      → nat_beq i j ≡ false
      → get_elem? (modify xs i f) j ≡ get_elem? xs j
  unfolding modify
  get-modify_other [] i j f h = refl
  get-modify_other (x ∷ xs) zero zero f h = absurd (ground arith)
  get-modify_other (x ∷ xs) zero (suc j) f h = refl
  get-modify_other (x ∷ xs) (suc i) zero f h = refl
  get-modify_other (x ∷ xs) (suc i) (suc j) f h = get-modify_other xs i j f (ground arith)

  pub get_within : (xs : List A) (i : ℕ) → i < length xs → (x : A) × (get_elem? xs i ≡ some x)
  get_within [] i lt = absurd (omega arith)
  get_within (x ∷ xs) zero lt = (x, refl)
  get_within (x ∷ xs) (suc i) lt = get_within xs i (omega arith)

  pub get_inside : (xs : List A) (i : ℕ) (x : A) → get_elem? xs i ≡ some x → i < length xs
  get_inside [] i x h = absurd (cc)
  get_inside (y ∷ xs) zero x h = omega arith
  get_inside (y ∷ xs) (suc i) x h = let lt = get_inside xs i x h in omega arith

pub sum-modify :
    (xs : List ℕ) (i : ℕ) (f : ℕ → ℕ) (x : ℕ)
    → get_elem? xs i ≡ some x
    → sum (modify xs i f) + x ≡ sum xs + f x
unfolding sum modify
sum-modify [] i f x h = absurd (cc)
sum-modify (y ∷ xs) zero f x h = let e : y ≡ x = cc in let e' : f y ≡ f x = ap f e in omega arith
sum-modify (y ∷ xs) (suc i) f x h = let rest = sum-modify xs i f x h in omega arith

-- The largest of some numbers, and the position of the first largest.
unfoldable pub list_max : List ℕ → ℕ
list_max [] = 0
list_max (x ∷ xs) = let m = list_max xs in if ltb x m then m else x

-- max(range(len(xs)), key=lambda j: xs[j])
unfoldable pub arg_max : List ℕ → ℕ
unfolding list_max
arg_max [] = 0
arg_max (x ∷ xs) = let j = arg_max xs in if ltb x (list_max xs) then suc j else 0

pub get-arg_max : (xs : List ℕ) → 0 < length xs → get_elem? xs (arg_max xs) ≡ some (list_max xs)
unfolding arg_max list_max
get-arg_max [] h = absurd (omega arith)
get-arg_max (x ∷ []) h = ground arith
get-arg_max (x ∷ y ∷ xs) h = elim (Bool-cases (ltb x (list_max (y ∷ xs)))) [
  | inl less ↦ rw less (get-arg_max (y ∷ xs) (omega arith))
  | inr more ↦ rw more
]

list_max_bounds :
    (x : ℕ) (xs : List ℕ) → (x ≤ list_max (x ∷ xs)) × (list_max xs ≤ list_max (x ∷ xs))
unfolding list_max
list_max_bounds x xs = ground arith

-- Numbers up to 1, with a 0 among them, sum to less than their count.
sum_of_small : (xs : List ℕ) → list_max xs ≤ 1 → sum xs ≤ length xs
unfolding sum
sum_of_small [] h = omega arith
sum_of_small (x ∷ xs) h =
    let (here, there) = list_max_bounds x xs in
    let rest = sum_of_small xs (omega arith) in omega arith

pub sum_with_zero :
    (xs : List ℕ) (i : ℕ) → get_elem? xs i ≡ some 0 → list_max xs ≤ 1 → sum xs < length xs
unfolding sum
sum_with_zero [] i h m = absurd (cc)
sum_with_zero (x ∷ xs) zero h m =
    let e : x ≡ 0 = cc in
    let (here, there) = list_max_bounds x xs in
    let rest = sum_of_small xs (omega arith) in omega arith
sum_with_zero (x ∷ xs) (suc i) h m =
    let (here, there) = list_max_bounds x xs in
    let rest = sum_with_zero xs i h (omega arith) in omega arith

-- sorted(xs, key=…, reverse=True), which keeps the order of equals: `below` compares the keys.
module _ {ℓ} {A : Type ℓ} (below : A → A → Bool) where
  unfoldable pub place : A → List A → List A
  place x [] = x ∷ []
  place x (y ∷ ys) = let rest = place x ys in if below x y then y ∷ rest else x ∷ y ∷ ys

  unfoldable pub sort_down : List A → List A
  unfolding place
  sort_down [] = []
  sort_down (x ∷ xs) = place x (sort_down xs)

  length-place : (x : A) (ys : List A) → length (place x ys) ≡ suc (length ys)
  unfolding place
  length-place x [] = refl
  length-place x (y ∷ ys) = ground (arith, length-place x ys)

  pub length-sort_down : (xs : List A) → length (sort_down xs) ≡ length xs
  unfolding sort_down
  length-sort_down [] = refl
  length-sort_down (x ∷ xs) = omega (arith, length-place x (sort_down xs), length-sort_down xs)

  All-place : (P : A → Type 0) (x : A) (ys : List A) → P x → All P ys → All P (place x ys)
  unfolding place
  All-place P x [] p all = (p, tt)
  All-place P x (y ∷ ys) p all = elim (Bool-cases (below x y)) [
    | inl less ↦ rw less (all.0, All-place P x ys p all.1)
    | inr more ↦ rw more (p, all)
  ]

  pub All-sort_down : (P : A → Type 0) (xs : List A) → All P xs → All P (sort_down xs)
  unfolding sort_down
  All-sort_down P [] all = tt
  All-sort_down P (x ∷ xs) all = All-place P x (sort_down xs) all.0 (All-sort_down P xs all.1)

pub sum-take-suc :
    (xs : List ℕ) (i x : ℕ) → get_elem? xs i ≡ some x → sum (take (suc i) xs) ≡ sum (take i xs) + x
unfolding sum take
sum-take-suc [] i x h = absurd (cc)
sum-take-suc (y ∷ xs) zero x h = let e : y ≡ x = cc in omega arith
sum-take-suc (y ∷ xs) (suc i) x h = omega (arith, sum-take-suc xs i x h)

pub take_all {ℓ} : {A : Type ℓ} (xs : List A) → take (length xs) xs ≡ xs
unfolding take
take_all [] = refl
take_all (x ∷ xs) = ap (λ l. x ∷ l) (take_all xs)
