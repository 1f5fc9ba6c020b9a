-- ===== src/Base/Text.antt =====
-- The order on texts, Python's `<` on `str`: by code points, first difference first.
use Prim.Native.Nat.{ℕ, Ordering, compare as compare_ℕ}
use Prim.Native.Char.{code}
use Prim.Native.String.compare
use Prim.Native.String.{String, [], ◌∷◌, compare, then}
use mathlib.Core.Path.{◌≡◌, refl, ap, sym, ◌∙◌}
use mathlib.Core.Bool.{Bool, true, false}
use native.Mathlib.Omega.{arith}
use text.Mathlib.TextEquality.{path_by_compare}

abbrev pub str_lt : String → String → Bool
str_lt s t = elim (compare s t) [ Ordering.lt ↦ true | _ ↦ false ]

abbrev flip : Ordering → Ordering
flip Ordering.lt = Ordering.gt
flip Ordering.eq = Ordering.eq
flip Ordering.gt = Ordering.lt

then-flip : (o r : Ordering) → flip (then o r) ≡ then (flip o) (flip r)
then-flip Ordering.lt r = refl
then-flip Ordering.eq r = refl
then-flip Ordering.gt r = refl

compare_ℕ-flip : (m n : ℕ) → compare_ℕ n m ≡ flip (compare_ℕ m n)
compare_ℕ-flip m n = ground arith

compare-flip : (s t : String) → compare t s ≡ flip (compare s t)
compare-flip [] [] = refl
compare-flip [] (d ∷ t) = rw (compare.nil-cons, compare.cons-nil)
compare-flip (c ∷ s) [] = rw (compare.nil-cons, compare.cons-nil)
compare-flip (c ∷ s) (d ∷ t) =
    compare.cons-cons d c t s
    ∙ (rw (compare_ℕ-flip (code c) (code d), compare-flip s t) (sym (then-flip _ _)))
    ∙ ap flip (sym (compare.cons-cons c d s t))

step_trans :
    (m n k : ℕ) (r s u : Ordering)
    → (r ≡ Ordering.lt → s ≡ Ordering.lt → u ≡ Ordering.lt)
    → then (compare_ℕ m n) r ≡ Ordering.lt
    → then (compare_ℕ n k) s ≡ Ordering.lt
    → then (compare_ℕ m k) u ≡ Ordering.lt
step_trans m n k r s u rest h g = ground arith

not-lt-nil : (t : String) → compare t [] ≡ Ordering.lt → ⊥
not-lt-nil [] h = cc (compare.nil-nil)
not-lt-nil (d ∷ t) h = cc (compare.cons-nil d t)

compare-lt_trans :
    (s t u : String)
    → compare s t ≡ Ordering.lt
    → compare t u ≡ Ordering.lt
    → compare s u ≡ Ordering.lt
compare-lt_trans s t [] h g = absurd (not-lt-nil t g)
compare-lt_trans s [] (e ∷ u) h g = absurd (not-lt-nil s h)
compare-lt_trans [] (d ∷ t) (e ∷ u) h g = λ i. compare.nil-cons e u i
compare-lt_trans (c ∷ s) (d ∷ t) (e ∷ u) h g =
    compare.cons-cons c e s u
    ∙ step_trans (code c) (code d) (code e) (compare s t) (compare t u) (compare s u)
        (compare-lt_trans s t u) (sym (compare.cons-cons c d s t) ∙ h)
        (sym (compare.cons-cons d e t u) ∙ g)

str_lt→compare : (s t : String) → str_lt s t ≡ true → compare s t ≡ Ordering.lt
str_lt→compare s t h = ground arith

pub str_lt_trans : (s t u : String) → str_lt s t ≡ true → str_lt t u ≡ true → str_lt s u ≡ true
str_lt_trans s t u h g =
    ground (arith, compare-lt_trans s t u (str_lt→compare s t h) (str_lt→compare t u g))

-- No text is below itself, and of two texts neither of which is below the other, both are the same.
pub str_lt_asym : (s t : String) → str_lt s t ≡ true → str_lt t s ≡ false
str_lt_asym s t h = ground (arith, compare-flip s t)

pub str_lt_total : (s t : String) → str_lt s t ≡ false → str_lt t s ≡ false → s ≡ t
str_lt_total s t h g = path_by_compare s t (ground (arith, compare-flip s t))
