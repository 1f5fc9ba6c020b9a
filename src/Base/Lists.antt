-- ===== src/Base/Lists.antt =====
-- Lists measured by native numbers, under the library's names, and Python's list loops.
use Prim.Native.Nat.{ℕ, zero, suc, ◌+◌}
use mathlib.Core.Path.{◌≡◌, refl, sym, subst}
use mathlib.Core.Logic.{◌⊎◌, inl, inr}
use mathlib.Core.Bool.{Bool, true, false, ◌&&◌, ◌||◌}
use mathlib.Core.List.{List, [], ◌∷◌, ◌++◌, Memᴰ}
use mathlib.Core.Option.{Option, none, some}
use native.Mathlib.Omega.{arith}
use agent_setup.Base.Tests.{if◌then◌else◌, Bool-cases}

module _ {ℓ} {A : Type ℓ} where
  abbrev pub length : List A → ℕ
  length [] = 0
  length (x ∷ xs) = suc (length xs)

  pub length-append : (xs ys : List A) → length (xs ++ ys) ≡ length xs + length ys
  length-append [] ys = omega arith
  length-append (x ∷ xs) ys = omega (arith, length-append xs ys)

  abbrev pub get_elem? : List A → ℕ → Option A
  get_elem? [] i = none
  get_elem? (x ∷ xs) zero = some x
  get_elem? (x ∷ xs) (suc i) = get_elem? xs i

  -- [x for x in xs if test(x)]
  unfoldable pub keep_if : (A → Bool) → List A → List A
  keep_if test [] = []
  keep_if test (x ∷ xs) = let rest = keep_if test xs in if test x then x ∷ rest else rest

  unfoldable pub any_of : (A → Bool) → List A → Bool
  any_of test [] = false
  any_of test (x ∷ xs) = test x || any_of test xs

  unfoldable pub all_of : (A → Bool) → List A → Bool
  all_of test [] = true
  all_of test (x ∷ xs) = test x && all_of test xs

  pub all_of-Mem :
      (test : A → Bool) (xs : List A) (a : A) → all_of test xs ≡ true → Memᴰ a xs → test a ≡ true
  unfolding all_of
  all_of-Mem test [] a h m = elim m [ ]
  all_of-Mem test (x ∷ xs) a h (Memᴰ.head e) = ground arith
  all_of-Mem test (x ∷ xs) a h (Memᴰ.tail m) = all_of-Mem test xs a (ground arith) m

  pub any_of-Mem :
      (test : A → Bool) (xs : List A)
      → any_of test xs ≡ true
      → (a : A) × Memᴰ a xs × (test a ≡ true)
  unfolding any_of
  any_of-Mem test [] h = cc
  any_of-Mem test (x ∷ xs) h = elim (Bool-cases (test x)) [
    | inl e ↦ (x, Memᴰ.head refl, e)
    | inr e ↦ let (a, m, t) = any_of-Mem test xs (ground arith) in (a, Memᴰ.tail m, t)
  ]

  pub any_of-not-Mem :
      (test : A → Bool) (xs : List A) (a : A) → any_of test xs ≡ false → Memᴰ a xs → test a ≡ false
  unfolding any_of
  any_of-not-Mem test [] a h m = elim m [ ]
  any_of-not-Mem test (x ∷ xs) a h (Memᴰ.head e) = ground arith
  any_of-not-Mem test (x ∷ xs) a h (Memᴰ.tail m) = any_of-not-Mem test xs a (ground arith) m

  kept_cases : (x a : A) (rest : List A) → Memᴰ a (x ∷ rest) → (a ≡ x) ⊎ Memᴰ a rest
  kept_cases x a rest (Memᴰ.head e) = inl e
  kept_cases x a rest (Memᴰ.tail m) = inr m

  pub keep_if-Mem :
      (test : A → Bool) (xs : List A) (a : A)
      → Memᴰ a (keep_if test xs)
      → Memᴰ a xs × (test a ≡ true)
  unfolding keep_if
  keep_if-Mem test [] a m = elim m [ ]
  keep_if-Mem test (x ∷ xs) a m = elim (Bool-cases (test x)) [
    | inl e ↦ elim (kept_cases x a (keep_if test xs) (rw e at m)) [
      | inl p ↦ (Memᴰ.head p, ground arith)
      | inr n ↦ let (k, t) = keep_if-Mem test xs a n in (Memᴰ.tail k, t)
    ]
    | inr e ↦ let (k, t) = keep_if-Mem test xs a (rw e at m) in (Memᴰ.tail k, t)
  ]

  pub keep_if-keeps :
      (test : A → Bool) (xs : List A) (a : A) → Memᴰ a xs → test a ≡ true → Memᴰ a (keep_if test xs)
  unfolding keep_if
  keep_if-keeps test [] a m t = elim m [ ]
  keep_if-keeps test (x ∷ xs) a (Memᴰ.head e) t =
      let t' : test x ≡ true = ground arith in rw t' (Memᴰ.head e)
  keep_if-keeps test (x ∷ xs) a (Memᴰ.tail m) t =
      let rest = keep_if-keeps test xs a m t in
      elim (Bool-cases (test x)) [ inl e ↦ rw e (Memᴰ.tail rest) | inr e ↦ rw e rest ]

module _ {ℓ} {A : Type ℓ} where
  -- xs[i] = f(xs[i])
  unfoldable pub modify : List A → ℕ → (A → A) → List A
  modify [] i f = []
  modify (x ∷ xs) zero f = f x ∷ xs
  modify (x ∷ xs) (suc i) f = x ∷ modify xs i f

  -- A property of every element.
  abbrev pub All {κ} : (A → Type κ) → List A → Type κ
  All P [] = Unit
  All P (x ∷ xs) = P x × All P xs

  pub All-append {κ} : (P : A → Type κ) (xs ys : List A) → All P xs → All P ys → All P (xs ++ ys)
  All-append P [] ys hx hy = hy
  All-append P (x ∷ xs) ys hx hy = (hx.0, All-append P xs ys hx.1 hy)

  pub All-map {κ μ} :
      (P : A → Type κ) (Q : A → Type μ) (xs : List A) → ((x : A) → P x → Q x) → All P xs → All Q xs
  All-map P Q [] f h = tt
  All-map P Q (x ∷ xs) f h = (f x h.0, All-map P Q xs f h.1)

  pub All-modify {κ} :
      (P : A → Type κ) (xs : List A) (i : ℕ) (f : A → A)
      → ((x : A) → get_elem? xs i ≡ some x → P x → P (f x))
      → All P xs
      → All P (modify xs i f)
  unfolding modify
  All-modify P [] i f k h = tt
  All-modify P (x ∷ xs) zero f k h = (k x refl h.0, h.1)
  All-modify P (x ∷ xs) (suc i) f k h = (h.0, All-modify P xs i f k h.1)

  pub All-get {κ} :
      (P : A → Type κ) (xs : List A) (i : ℕ) (x : A) → All P xs → get_elem? xs i ≡ some x → P x
  All-get P [] i x h e = absurd (ground arith)
  All-get P (y ∷ xs) zero x h e = let p : y ≡ x = ground arith in subst P p h.0
  All-get P (y ∷ xs) (suc i) x h e = All-get P xs i x h.1 e

  pub All-Mem {κ} : (P : A → Type κ) (xs : List A) (x : A) → All P xs → Memᴰ x xs → P x
  All-Mem P [] x h m = elim m [ ]
  All-Mem P (y ∷ xs) x h (Memᴰ.head e) = subst P (sym e) h.0
  All-Mem P (y ∷ xs) x h (Memᴰ.tail m) = All-Mem P xs x h.1 m

  pub Mem-append_left : (x : A) (xs ys : List A) → Memᴰ x xs → Memᴰ x (xs ++ ys)
  Mem-append_left x [] ys m = elim m [ ]
  Mem-append_left x (y ∷ xs) ys (Memᴰ.head e) = Memᴰ.head e
  Mem-append_left x (y ∷ xs) ys (Memᴰ.tail m) = Memᴰ.tail (Mem-append_left x xs ys m)

  pub Mem-append_last : (x : A) (xs : List A) → Memᴰ x (xs ++ x ∷ [])
  Mem-append_last x [] = Memᴰ.head refl
  Mem-append_last x (y ∷ xs) = Memᴰ.tail (Mem-append_last x xs)
