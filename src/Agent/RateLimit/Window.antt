-- ===== src/Agent/RateLimit/Window.antt =====
-- What the limiter remembers of the failures under a key.
use agent_setup.Base.{
  ℕ, ◌+◌, ◌≤◌, ◌≡◌, refl, sym, ap, ◌∙◌, Bool, true, false, List, [], ◌∷◌, ◌++◌, String, inl, inr,
  ltb, leb, Bool-cases, keep_if, if◌then◌else◌, All, All-append, All-map, arith,
}
use agent_setup.Base.Eq.{◌==◌, text_eq}
use agent_setup.Agent.RateLimit.{LoginRateLimiter, discard_expired, check_key, failed, success}

-- What happens to a limiter, with the time at which it does.
pub data Action : Type 0 where
  checks fails succeeds : ℕ → String → Action

unfoldable pub act : LoginRateLimiter → Action → LoginRateLimiter
act r (checks now key) = (check_key r now key).0
act r (fails now key) = failed r now key
act r (succeeds now key) = success r key

abbrev pub time_of : Action → ℕ
time_of (checks now key) = now
time_of (fails now key) = now
time_of (succeeds now key) = now

unfoldable pub act_all : LoginRateLimiter → List Action → LoginRateLimiter
act_all r [] = r
act_all r (a ∷ actions) = act_all (act r a) actions

-- The failures under a key since its last success.
unfoldable pub failures_since : String → List Action → List ℕ → List ℕ
failures_since key [] times = times
failures_since key (fails now k ∷ actions) times =
    failures_since key actions (if k == key then times ++ now ∷ [] else times)
failures_since key (succeeds now k ∷ actions) times =
    failures_since key actions (if k == key then [] else times)
failures_since key (checks now k ∷ actions) times = failures_since key actions times

-- Those of them that are not older than the window.
abbrev pub recent : (window now : ℕ) → List ℕ → List ℕ
recent window now times = keep_if (λ t. leb now (t + window)) times

-- Times that never fall, from one on.
abbrev pub Rising : ℕ → List ℕ → Type 0
Rising low [] = Unit {0}
Rising low (t ∷ ts) = (low ≤ t) × Rising t ts

abbrev pub Sorted : List ℕ → Type 0
Sorted [] = Unit {0}
Sorted (x ∷ xs) = All (λ y. x ≤ y) xs × Sorted xs

All-keep_if : (P : ℕ → Type 0) (test : ℕ → Bool) (xs : List ℕ) → All P xs → All P (keep_if test xs)
unfolding keep_if
All-keep_if P test [] all = tt
All-keep_if P test (x ∷ xs) all = elim (Bool-cases (test x)) [
  | inl e ↦ rw e (all.0, All-keep_if P test xs all.1)
  | inr e ↦ rw e (All-keep_if P test xs all.1)
]

Sorted-keep_if : (test : ℕ → Bool) (xs : List ℕ) → Sorted xs → Sorted (keep_if test xs)
unfolding keep_if
Sorted-keep_if test [] s = tt
Sorted-keep_if test (x ∷ xs) s = elim (Bool-cases (test x)) [
  | inl e ↦ rw e (All-keep_if (λ y. x ≤ y) test xs s.0, Sorted-keep_if test xs s.1)
  | inr e ↦ rw e (Sorted-keep_if test xs s.1)
]

Sorted-append :
    (xs : List ℕ) (now : ℕ) → All (λ x. x ≤ now) xs → Sorted xs → Sorted (xs ++ now ∷ [])
Sorted-append [] now all s = (tt, tt)
Sorted-append (x ∷ xs) now all s =
    (All-append (λ y. x ≤ y) xs (now ∷ []) s.0 (all.0, tt), Sorted-append xs now all.1 s.1)

keep_if-append :
    (test : ℕ → Bool) (xs ys : List ℕ)
    → keep_if test (xs ++ ys) ≡ keep_if test xs ++ keep_if test ys
unfolding keep_if
keep_if-append test [] ys = refl
keep_if-append test (x ∷ xs) ys = elim (Bool-cases (test x)) [
  | inl e ↦ rw e (ap (λ l. x ∷ l) (keep_if-append test xs ys))
  | inr e ↦ rw e (keep_if-append test xs ys)
]

module _ (window : ℕ) where
  recent_whole :
      (now x : ℕ) (xs : List ℕ) → now ≤ x + window → All (λ y. x ≤ y) xs → recent window now xs ≡ xs
  unfolding keep_if
  recent_whole now x [] h all = refl
  recent_whole now x (y ∷ xs) h all =
      let le = all.0 in
      let young : leb now (y + window) ≡ true = ground arith in
      rw young (ap (λ l. y ∷ l) (recent_whole now x xs h all.1))

  -- On sorted times the loop that discards the first ones is a filter.
  pub discard-recent :
      (now : ℕ) (xs : List ℕ) → Sorted xs → discard_expired window now xs ≡ recent window now xs
  unfolding discard_expired keep_if
  discard-recent now [] s = refl
  discard-recent now (x ∷ xs) s = elim (Bool-cases (ltb (x + window) now)) [
    | inl old ↦
        let old' : leb now (x + window) ≡ false = ground arith in
        rw (old, old') (discard-recent now xs s.1)
    | inr young ↦
        let young' : leb now (x + window) ≡ true = ground arith in
        rw (young, young') (ap (λ l. x ∷ l) (sym (recent_whole now x xs (ground arith) s.0)))
  ]

  recent-recent :
      (now later : ℕ) (xs : List ℕ)
      → now ≤ later
      → recent window later (recent window now xs) ≡ recent window later xs
  unfolding keep_if
  recent-recent now later [] le = refl
  recent-recent now later (x ∷ xs) le = elim (Bool-cases (leb now (x + window))) [
    | inl young ↦ elim (Bool-cases (leb later (x + window))) [
      | inl still ↦ rw (young, still) (ap (λ l. x ∷ l) (recent-recent now later xs le))
      | inr gone ↦ rw (young, gone) (recent-recent now later xs le)
    ]
    | inr old ↦
        let gone : leb later (x + window) ≡ false = ground arith in
        rw (old, gone) (recent-recent now later xs le)
  ]

  -- What is stored under a key, against the failures since the last success, at a time.
  pub record Tracks (now : ℕ) (stored history : List ℕ) : Type 0 where
    pub sorted : Sorted stored
    pub past : All (λ t. t ≤ now) stored
    pub same : (later : ℕ) → now ≤ later → recent window later stored ≡ recent window later history

  pub Tracks-later :
      (now later : ℕ) (stored history : List ℕ)
      → now ≤ later
      → Tracks now stored history
      → Tracks later stored history
  Tracks-later now later stored history le t = record {
    sorted = t.sorted;
    past = All-map (λ x. x ≤ now) (λ x. x ≤ later) stored (λ x h. omega arith) t.past;
    same = λ later' le'. t.same later' (omega arith);
  }

  pub Tracks-trim :
      (now : ℕ) (stored history : List ℕ)
      → Tracks now stored history
      → Tracks now (discard_expired window now stored) history
  Tracks-trim now stored history t = rw (discard-recent now stored t.sorted) (record {
    sorted = Sorted-keep_if _ stored t.sorted;
    past = All-keep_if (λ x. x ≤ now) _ stored t.past;
    same = λ later le. recent-recent now later stored le ∙ t.same later le;
  })

  pub Tracks-add :
      (now : ℕ) (stored history : List ℕ)
      → Tracks now stored history
      → Tracks now (stored ++ now ∷ []) (history ++ now ∷ [])
  Tracks-add now stored history t = record {
    sorted = Sorted-append stored now t.past t.sorted;
    past = All-append (λ x. x ≤ now) stored (now ∷ []) t.past (omega arith, tt);
    same = λ later le.
        keep_if-append _ stored (now ∷ [])
        ∙ ap (λ l. l ++ recent window later (now ∷ [])) (t.same later le)
        ∙ sym (keep_if-append _ history (now ∷ []));
  }
