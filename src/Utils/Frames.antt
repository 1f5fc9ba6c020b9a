-- ===== src/Utils/Frames.antt =====
-- The frames of src/exo/utils/disk_event_log.py and src/exo/worker/disaggregated/protocol.py: a
-- length in four bytes, the greatest first, and that many bytes. A byte is a number.
use agent_setup.Base.{
  ℕ, zero, suc, ◌+◌, ◌*◌, ◌/◌, ◌%◌, ◌<◌, ◌≤◌, ◌≡◌, refl, sym, ap, ◌∙◌, inl, inr, Bool-cases, List,
  [], ◌∷◌, ◌++◌, length, ltb, if◌then◌else◌, arith,
}
use agent_setup.Base.Seq.{take, drop}
use agent_setup.Base.Result.{Result, ok, raise, overflow_error, ok-injective}

abbrev pub big_endian : ℕ → List ℕ
big_endian n = n / 16777216 ∷ n / 65536 % 256 ∷ n / 256 % 256 ∷ n % 256 ∷ []

-- n.to_bytes(4, byteorder="big")
unfoldable pub to_bytes : ℕ → Result (List ℕ)
to_bytes n = if ltb n 4294967296 then ok (big_endian n) else raise overflow_error

abbrev pub from_digits : ℕ → List ℕ → ℕ
from_digits acc [] = acc
from_digits acc (b ∷ bs) = from_digits (acc * 256 + b) bs

-- int.from_bytes(header, byteorder="big")
unfoldable pub from_bytes : List ℕ → ℕ
from_bytes bytes = from_digits 0 bytes

pub from_bytes-big_endian : (n : ℕ) → n < 4294967296 → from_bytes (big_endian n) ≡ n
unfolding from_bytes
from_bytes-big_endian n lt = omega arith

-- A length that is written fits.
pub to_bytes-fits :
    (n : ℕ) (bytes : List ℕ) → to_bytes n ≡ ok bytes → (n < 4294967296) × (big_endian n ≡ bytes)
unfolding to_bytes
to_bytes-fits n bytes h = elim (Bool-cases (ltb n 4294967296)) [
  | inl less ↦ (ground arith, ok-injective (big_endian n) bytes (rw less at h))
  | inr more ↦ absurd (lost (rw more at h))
]
  where
    lost : ◌≡◌ {A = Result (List ℕ)} (raise overflow_error) (ok bytes) → ⊥
    lost e = cc

-- The bytes of a frame whose length fits.
abbrev pub frame : List ℕ → List ℕ
frame payload = big_endian (length payload) ++ payload

module _ {ℓ} {A : Type ℓ} where
  pub take-append : (xs ys : List A) → take (length xs) (xs ++ ys) ≡ xs
  unfolding take
  take-append [] [] = refl
  take-append [] (y ∷ ys) = refl
  take-append (x ∷ xs) ys = ap (λ l. x ∷ l) (take-append xs ys)

  pub drop-append : (xs ys : List A) → drop (length xs) (xs ++ ys) ≡ ys
  unfolding drop
  drop-append [] [] = refl
  drop-append [] (y ∷ ys) = refl
  drop-append (x ∷ xs) ys = drop-append xs ys

  pub drop-zero : (xs : List A) → drop 0 xs ≡ xs
  unfolding drop
  drop-zero [] = refl
  drop-zero (x ∷ xs) = refl

  drop-nothing : (n : ℕ) → drop {A = A} n [] ≡ []
  unfolding drop
  drop-nothing zero = refl
  drop-nothing (suc n) = refl

  pub drop-plus : (m n : ℕ) (xs : List A) → drop (m + n) xs ≡ drop n (drop m xs)
  unfolding drop
  drop-plus m n [] =
      drop-nothing (m + n) ∙ sym (drop-nothing n) ∙ ap (drop n) (sym (drop-nothing m))
  drop-plus zero n (x ∷ xs) = ap (λ k. drop k (x ∷ xs)) (omega arith)
  drop-plus (suc m) n (x ∷ xs) =
      let e : suc m + n ≡ suc (m + n) = omega arith in
      ap (λ k. drop k (x ∷ xs)) e ∙ drop-plus m n xs

  pub length-drop : (n : ℕ) (xs : List A) → n ≤ length xs → n + length (drop n xs) ≡ length xs
  unfolding drop
  length-drop n [] h = ap (λ l. n + length l) (drop-nothing n) ∙ (omega arith)
  length-drop zero (x ∷ xs) h = omega arith
  length-drop (suc n) (x ∷ xs) h = omega (arith, length-drop n xs (omega arith))

  pub drop-early : (n : ℕ) (xs ys : List A) → n ≤ length xs → drop n (xs ++ ys) ≡ drop n xs ++ ys
  unfolding drop
  drop-early zero [] ys h = drop-zero ys
  drop-early (suc n) [] ys h = absurd (omega arith)
  drop-early zero (x ∷ xs) ys h = refl
  drop-early (suc n) (x ∷ xs) ys h = drop-early n xs ys (omega arith)
