-- ===== src/Base/Dict.antt =====
-- Python's `dict`: an association list in insertion order, generic in the keys. A key that is
-- written again keeps its place, as in Python.
use mathlib.Core.Path.{◌≡◌, refl, ap}
use mathlib.Core.Bool.{Bool, true, false}
use mathlib.Core.Logic.{inl, inr}
use mathlib.Core.Option.{Option, none, some}
use mathlib.Core.List.{List, [], ◌∷◌, ◌++◌, Memᴰ}
use native.Mathlib.Omega.{arith}
use agent_setup.Base.Tests.{if◌then◌else◌, Bool-cases}
use agent_setup.Base.Eq.{Eq, ◌==◌}

abbrev pub Dict {ℓ κ} : Type ℓ → Type κ → Type (ℓ ⊔ κ)
Dict K V = List (K × V)

abbrev pub is_some {ℓ} : {A : Type ℓ} → Option A → Bool
is_some none = false
is_some (some a) = true

module _ {ℓ κ} {K : Type ℓ} {V : Type κ} ⦃e : Eq K⦄ where
  -- d.get(k)
  unfoldable pub get : Dict K V → K → Option V
  get [] k = none
  get ((j, v) ∷ d) k = if j == k then some v else get d k

  -- k in d
  unfoldable pub has : Dict K V → K → Bool
  has [] k = false
  has ((j, v) ∷ d) k = if j == k then true else has d k

  -- {**d, k: v}, d[k] = v
  unfoldable pub insert : Dict K V → K → V → Dict K V
  insert [] k v = (k, v) ∷ []
  insert ((j, w) ∷ d) k v = if j == k then (j, v) ∷ d else (j, w) ∷ insert d k v

  -- {j: v for j, v in d.items() if j != k}, d.pop(k, None)
  unfoldable pub without : Dict K V → K → Dict K V
  without [] k = []
  without ((j, v) ∷ d) k = let rest = without d k in if j == k then rest else (j, v) ∷ rest

  unfoldable pub keys : Dict K V → List K
  keys [] = []
  keys ((j, v) ∷ d) = j ∷ keys d

  unfoldable pub values : Dict K V → List V
  values [] = []
  values ((j, v) ∷ d) = v ∷ values d

  pub get-insert :
      (d : Dict K V) (k j : K) (v : V) → get (insert d k v) j ≡ (if k == j then some v else get d j)
  unfolding get insert
  get-insert [] k j v = refl
  get-insert ((i, w) ∷ d) k j v =
      ground (arith, e.is_equal_iff k j, e.is_equal_iff i k, e.is_equal_iff i j, get-insert d k j v)

  pub get-without :
      (d : Dict K V) (k j : K) → get (without d k) j ≡ (if k == j then none else get d j)
  unfolding get without
  get-without [] k j = ground arith
  get-without ((i, w) ∷ d) k j =
      ground (arith, e.is_equal_iff k j, e.is_equal_iff i k, e.is_equal_iff i j, get-without d k j)

  pub has-get : (d : Dict K V) (k : K) → has d k ≡ is_some (get d k)
  unfolding get has
  has-get [] k = refl
  has-get ((j, v) ∷ d) k = ground (arith, has-get d k)

  -- What a lookup finds is an item of the dictionary.
  pub get-Mem : (d : Dict K V) (k : K) (v : V) → get d k ≡ some v → Memᴰ (k, v) d
  unfolding get
  get-Mem [] k v h = cc
  get-Mem ((j, w) ∷ d) k v h = elim (Bool-cases (j == k)) [
    | inl p ↦ Memᴰ.head (ground (arith, e.is_equal_iff j k))
    | inr p ↦ Memᴰ.tail (get-Mem d k v (rw p at h))
  ]

  pub Mem-values : (d : Dict K V) (k : K) (v : V) → Memᴰ (k, v) d → Memᴰ v (values d)
  unfolding values
  Mem-values [] k v m = elim m [ ]
  Mem-values ((j, w) ∷ d) k v (Memᴰ.head p) = Memᴰ.head (ap (λ (q : K × V). q.1) p)
  Mem-values ((j, w) ∷ d) k v (Memᴰ.tail m) = Memᴰ.tail (Mem-values d k v m)

  -- A new key is appended.
  pub insert-append :
      (d : Dict K V) (k : K) (v : V) → get d k ≡ none → insert d k v ≡ d ++ (k, v) ∷ []
  unfolding get insert
  insert-append [] k v h = refl
  insert-append ((j, w) ∷ d) k v h = elim (Bool-cases (j == k)) [
    | inl same ↦ absurd (clash w (rw same at h))
    | inr apart ↦ rw apart (ap (λ r. (j, w) ∷ r) (insert-append d k v (rw apart at h)))
  ]
    where
      clash : (u : V) → some u ≡ none → ⊥
      clash u e = cc

  pub get-append : (d d' : Dict K V) (k : K) → get d k ≡ none → get (d ++ d') k ≡ get d' k
  unfolding get
  get-append [] d' k h = refl
  get-append ((j, w) ∷ d) d' k h = elim (Bool-cases (j == k)) [
    | inl same ↦ absurd (clash w (rw same at h))
    | inr apart ↦ rw apart (get-append d d' k (rw apart at h))
  ]
    where
      clash : (u : V) → some u ≡ none → ⊥
      clash u e = cc
