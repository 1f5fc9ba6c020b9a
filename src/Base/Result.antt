-- ===== src/Base/Result.antt =====
-- Python code that may raise: the value that it returns, or the exception that leaves it.
use mathlib.Core.Path.{◌≡◌, refl}
use mathlib.Core.Bool.{Bool, true, false}
use mathlib.Core.Logic.{◌⊎◌, inl, inr}
use mathlib.Core.Option.{Option, none, some}
use mathlib.Core.List.{List, [], ◌∷◌, Memᴰ}
use native.Mathlib.Omega.{arith}

pub data Error : Type 0 where
  assertion_error key_error index_error value_error overflow_error : Error
  permission_error integrity_error connection_error protocol_error : Error

pub data Result {ℓ} (A : Type ℓ) : Type ℓ where
  raise : Error → Result A
  ok : A → Result A

pub ok-injective {ℓ} : {A : Type ℓ} (a b : A) → ok a ≡ ok b → a ≡ b
ok-injective a b h = cc

infixl 5 ◌>>=◌ ◌>>◌
abbrev pub ◌>>=◌ {ℓ κ} : {A : Type ℓ} {B : Type κ} → Result A → (A → Result B) → Result B
raise error >>= next = raise error
ok value >>= next = next value

abbrev pub ◌>>◌ {ℓ} : {B : Type ℓ} → Result (Unit {0}) → Result B → Result B
first >> then_ = first >>= λ _. then_

-- A chain that returns has returned at each step.
pub chain {ℓ κ} :
    {A : Type ℓ} {B : Type κ} (m : Result A) (f : A → Result B) (b : B)
    → m >>= f ≡ ok b
    → (a : A) × (m ≡ ok a) × (f a ≡ ok b)
chain (raise e) f b h = absurd (cc)
chain (ok a) f b h = (a, refl, h)

-- assert b
abbrev pub assert : Bool → Result (Unit {0})
assert true = ok tt
assert false = raise assertion_error

-- d[k], where a missing key raises
abbrev pub or_raise {ℓ} : {A : Type ℓ} → Option A → Error → Result A
or_raise none e = raise e
or_raise (some a) e = ok a

-- a or b, where `a` is an optional result
abbrev pub or_else {ℓ} : {A : Type ℓ} → Result (Option A) → Result (Option A) → Result (Option A)
or_else (ok (some a)) k = ok (some a)
or_else (ok none) k = k
or_else (raise e) k = raise e

-- A `for` loop whose body returns from the function, goes on with the next item, or raises.
unfoldable pub first_some {ℓ κ} :
    {A : Type ℓ} {B : Type κ} → (A → Result (Option B)) → List A → Result (Option B)
first_some f [] = ok none
first_some f (x ∷ xs) = let rest = first_some f xs in or_else (f x) rest

module _ {ℓ κ} {A : Type ℓ} {B : Type κ} (f : A → Result (Option B)) where
  first_step :
      (r k : Result (Option B)) (b : B)
      → or_else r k ≡ ok (some b)
      → (r ≡ ok (some b)) ⊎ (k ≡ ok (some b))
  first_step (ok (some a)) k b h = inl h
  first_step (ok none) k b h = inr h
  first_step (raise e) k b h = cc

  -- What the loop returns, the body returned at some item.
  pub first_some-Mem :
      (xs : List A) (b : B)
      → first_some f xs ≡ ok (some b)
      → (x : A) × Memᴰ x xs × (f x ≡ ok (some b))
  unfolding first_some
  first_some-Mem [] b h = cc
  first_some-Mem (x ∷ xs) b h = elim (first_step (f x) (first_some f xs) b h) [
    | inl e ↦ (x, Memᴰ.head refl, e)
    | inr e ↦ let (y, m, p) = first_some-Mem xs b e in (y, Memᴰ.tail m, p)
  ]

  -- A loop that runs to its end went on at every item.
  pub first_some-none :
      (xs : List A) (x : A) → first_some f xs ≡ ok none → Memᴰ x xs → f x ≡ ok none
  unfolding first_some
  first_some-none [] x h m = elim m [ ]
  first_some-none (y ∷ xs) x h (Memᴰ.head e) = rw e (ground arith)
  first_some-none (y ∷ xs) x h (Memᴰ.tail m) = first_some-none xs x (ground arith) m
