-- ===== src/Agent/Auth/Names.antt =====
-- tools/src/exo_tools/agent_core/auth.py, `create_google_user`: the names that it tries, of an address
-- and of a number. `str.lower` and `str.isalnum` are parameters.
use Prim.Native.Char.{Char, code}
use Prim.Native.String.{String, [], ◌∷◌}
use agent_setup.Base.{
  ℕ, zero, suc, ◌+◌, ◌-◌, ◌*◌, ◌/◌, ◌%◌, ◌≤◌, ◌<◌, ◌≡◌, refl, sym, ap, ◌∙◌, Bool, ◌||◌, nat_beq,
  if◌then◌else◌, inl, inr, Bool-cases, arith,
}

pub record Characters : Type 0 where
  pub lower : String → String
  pub is_alnum : Char → Bool

-- google_email.split("@", 1)[0]
unfoldable pub before_at : String → String
before_at [] = []
before_at (c ∷ s) = let rest = before_at s in if nat_beq (code c) b'@' then [] else c ∷ rest

-- character.isalnum() or character in "_-"
abbrev pub names_keep : Characters → Char → Bool
names_keep chars c = chars.is_alnum c || (nat_beq (code c) b'_' || nat_beq (code c) b'-')

-- "".join(character for character in … if …)
unfoldable pub kept_characters : (Char → Bool) → String → String
kept_characters keeps [] = []
kept_characters keeps (c ∷ s) =
    let rest = kept_characters keeps s in if keeps c then c ∷ rest else rest

abbrev pub or_google_user : String → String
or_google_user [] = "google-user"
or_google_user (c ∷ s) = c ∷ s

-- text[:n]
unfoldable pub first_characters : ℕ → String → String
first_characters zero s = []
first_characters (suc n) [] = []
first_characters (suc n) (c ∷ s) = c ∷ first_characters n s

unfoldable pub text_append : String → String → String
text_append [] t = t
text_append (c ∷ s) t = c ∷ text_append s t

unfoldable pub base_of : Characters → String → String
base_of chars google_email =
    first_characters 24
      (or_google_user (kept_characters (names_keep chars) (chars.lower (before_at google_email))))

-- The character at a position, and the digit of a number below ten.
abbrev pub character_at : String → ℕ → Char
character_at [] n = "?"
character_at (c ∷ s) zero = c
character_at (c ∷ s) (suc n) = character_at s n

abbrev pub digit : ℕ → Char
digit n = character_at "0123456789" n

-- str(suffix): the digits, the last first, put before those that are there. As many rounds as the
-- number are enough.
unfoldable pub digits_from : (fuel n : ℕ) → String → String
digits_from zero n out = out
digits_from (suc fuel) n out =
    let rest = digits_from fuel (n / 10) (digit (n % 10) ∷ out) in if nat_beq n 0 then out else rest

unfoldable pub decimal : ℕ → String
decimal n = if nat_beq n 0 then "0" else digits_from n n []

-- f"{base[:20]}-{suffix}"
unfoldable pub numbered_name : String → ℕ → String
numbered_name base suffix = text_append (first_characters 20 base) ("-" ∷ decimal suffix)

code-digit : (n : ℕ) → n < 10 → code (digit n) ≡ 48 + n
code-digit zero lt = refl
code-digit (suc zero) lt = refl
code-digit (suc (suc zero)) lt = refl
code-digit (suc (suc (suc zero))) lt = refl
code-digit (suc (suc (suc (suc zero)))) lt = refl
code-digit (suc (suc (suc (suc (suc zero))))) lt = refl
code-digit (suc (suc (suc (suc (suc (suc zero)))))) lt = refl
code-digit (suc (suc (suc (suc (suc (suc (suc zero))))))) lt = refl
code-digit (suc (suc (suc (suc (suc (suc (suc (suc zero)))))))) lt = refl
code-digit (suc (suc (suc (suc (suc (suc (suc (suc (suc zero))))))))) lt = refl
code-digit (suc (suc (suc (suc (suc (suc (suc (suc (suc (suc n)))))))))) lt = absurd (omega arith)

-- The number that the digits stand for, after those read before.
read_digits : String → ℕ → ℕ
read_digits [] n = n
read_digits (c ∷ s) n = read_digits s (n * 10 + (code c - 48))

read_digits-digits_from :
    (fuel n : ℕ) (out : String)
    → n ≤ fuel
    → read_digits (digits_from fuel n out) 0 ≡ read_digits out n
unfolding digits_from read_digits
read_digits-digits_from zero n out le = let e : 0 ≡ n = omega arith in ap (read_digits out) e
read_digits-digits_from (suc fuel) n out le = elim (Bool-cases (nat_beq n 0)) [
  | inl none_ ↦ let e : 0 ≡ n = ground arith in rw none_ (ap (read_digits out) e)
  | inr more ↦
      let is = code-digit (n % 10) (omega arith) in
      let e : n / 10 * 10 + (code (digit (n % 10)) - 48) ≡ n = rw is (omega arith) in
      rw more (
        read_digits-digits_from fuel (n / 10) (digit (n % 10) ∷ out) (ground arith)
        ∙ ap (read_digits out) e)
]

read_digits-decimal : (n : ℕ) → read_digits (decimal n) 0 ≡ n
unfolding decimal read_digits
read_digits-decimal n = elim (Bool-cases (nat_beq n 0)) [
  | inl none_ ↦ let e : 0 ≡ n = ground arith in rw none_ e
  | inr more ↦ rw more (read_digits-digits_from n n [] (omega arith))
]

text_append-injective : (s t u : String) → text_append s t ≡ text_append s u → t ≡ u
unfolding text_append
text_append-injective [] t u e = e
text_append-injective (c ∷ s) t u e = text_append-injective s t u (cc)

-- Names with different numbers differ.
pub numbered_name-injective :
    (base : String) (i j : ℕ) → numbered_name base i ≡ numbered_name base j → i ≡ j
unfolding numbered_name
numbered_name-injective base i j e =
    let e1 =
      text_append-injective (first_characters 20 base) ("-" ∷ decimal i) ("-" ∷ decimal j) e in
    let e2 : decimal i ≡ decimal j = cc in
    sym (read_digits-decimal i) ∙ ap (λ s. read_digits s 0) e2 ∙ read_digits-decimal j
