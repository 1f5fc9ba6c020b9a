-- ===== src/Agent/RateLimit/Limit.antt =====
-- When a login is refused.
use agent_setup.Base.{
  ℕ, ◌≡◌, refl, sym, ap, ◌∙◌, subst, true, List, [], ◌∷◌, ◌++◌, map, String, inl, inr, leb, length,
  Bool-cases, if◌then◌else◌, arith,
}
use agent_setup.Base.Eq.{◌==◌, text_eq, ==_eq}
use agent_setup.Base.Dict.{get, insert, without, get-insert, get-without}
use agent_setup.Base.Result.{ok, raise, permission_error}
use agent_setup.Agent.RateLimit.{LoginRateLimiter, or_empty, trimmed, check_key, failed, success}
use agent_setup.Agent.RateLimit.Window.{
  Action, checks, fails, succeeds, act, time_of, act_all, failures_since, recent, Rising, Tracks,
  Tracks-later, Tracks-trim, Tracks-add, discard-recent,
}

abbrev stored : LoginRateLimiter → String → List ℕ
stored r key = or_empty (get r.failures key)

-- What a single action makes of the failures under a key.
abbrev after : String → Action → List ℕ → List ℕ
after key (checks now k) times = times
after key (fails now k) times = if k == key then times ++ now ∷ [] else times
after key (succeeds now k) times = if k == key then [] else times

failures-step :
    (key : String) (a : Action) (actions : List Action) (times : List ℕ)
    → failures_since key (a ∷ actions) times ≡ failures_since key actions (after key a times)
unfolding failures_since
failures-step key (checks now k) actions times = refl
failures-step key (fails now k) actions times = refl
failures-step key (succeeds now k) actions times = refl

act-window :
    (r : LoginRateLimiter) (a : Action)
    → ((act r a).window_seconds ≡ r.window_seconds) × ((act r a).max_failures ≡ r.max_failures)
unfolding act check_key failed success
act-window r (checks now k) = (refl, refl)
act-window r (fails now k) = (refl, refl)
act-window r (succeeds now k) = (refl, refl)

module _ (key : String) where
  at_insert :
      (r : LoginRateLimiter) (k : String) (times : List ℕ)
      → or_empty (get (insert r.failures k times) key) ≡ (if k == key then times else stored r key)
  at_insert r k times = elim (Bool-cases (k == key)) [
    | inl e ↦ ap or_empty (get-insert r.failures k key times) ∙ (rw e)
    | inr e ↦ ap or_empty (get-insert r.failures k key times) ∙ (rw e)
  ]

  at_without :
      (r : LoginRateLimiter) (k : String)
      → or_empty (get (without r.failures k) key) ≡ (if k == key then [] else stored r key)
  at_without r k = elim (Bool-cases (k == key)) [
    | inl e ↦ ap or_empty (get-without r.failures k key) ∙ (rw e)
    | inr e ↦ ap or_empty (get-without r.failures k key) ∙ (rw e)
  ]

  own :
      (r : LoginRateLimiter) (now : ℕ) (k : String) (history : List ℕ)
      → (k == key) ≡ true
      → Tracks r.window_seconds now (stored r key) history
      → Tracks r.window_seconds now (trimmed r now k) history
  own r now k history e t =
      Tracks-trim r.window_seconds now (stored r k) history
        (subst (λ j. Tracks r.window_seconds now (stored r j) history) (sym (==_eq k key e)) t)

  step-Tracks :
      (r : LoginRateLimiter) (a : Action) (history : List ℕ)
      → Tracks r.window_seconds (time_of a) (stored r key) history
      → Tracks r.window_seconds (time_of a) (stored (act r a) key) (after key a history)
  unfolding act check_key failed success
  step-Tracks r (checks now k) history t =
      subst (λ l. Tracks r.window_seconds now l history) (sym (at_insert r k (trimmed r now k)))
        (elim (Bool-cases (k == key)) [ inl e ↦ rw e (own r now k history e t) | inr e ↦ rw e t ])
  step-Tracks r (fails now k) history t =
      subst (λ l. Tracks r.window_seconds now l (after key (fails now k) history))
        (sym (at_insert r k (trimmed r now k ++ now ∷ [])))
        (elim (Bool-cases (k == key)) [
          | inl e ↦
              rw e (
                Tracks-add r.window_seconds now (trimmed r now k) history (own r now k history e t))
          | inr e ↦ rw e t
        ])
  step-Tracks r (succeeds now k) history t =
      subst (λ l. Tracks r.window_seconds now l (after key (succeeds now k) history))
        (sym (at_without r k))
        (elim (Bool-cases (k == key)) [
          | inl e ↦ rw e (record { sorted = tt; past = tt; same = λ later le. refl })
          | inr e ↦ rw e t
        ])

  run-Tracks :
      (actions : List Action) (low : ℕ) (r : LoginRateLimiter) (history : List ℕ) (end : ℕ)
      → Rising low (map time_of actions ++ end ∷ [])
      → Tracks r.window_seconds low (stored r key) history
      → Tracks r.window_seconds end
          (stored (act_all r actions) key)
          (failures_since key actions history)
  unfolding act_all
  run-Tracks [] low r history end rising t =
      unfold failures_since in
      Tracks-later r.window_seconds low end (stored r key) history rising.0 t
  run-Tracks (a ∷ actions) low r history end rising t =
      let t1 =
        step-Tracks r a history
          (Tracks-later r.window_seconds low (time_of a) (stored r key) history rising.0 t) in
      let t2 = run-Tracks actions (time_of a) (act r a) (after key a history) end rising.1 (
        subst (λ w. Tracks w (time_of a) (stored (act r a) key) (after key a history))
          (sym (act-window r a).0) t1) in
      subst (λ h. Tracks r.window_seconds end (stored (act_all (act r a) actions) key) h)
        (sym (failures-step key a actions history))
        (subst
          (λ w.
            Tracks w end (stored (act_all (act r a) actions) key)
              (failures_since key actions (after key a history)))
          (act-window r a).0 t2)

  run-limits :
      (actions : List Action) (r : LoginRateLimiter)
      → ((act_all r actions).window_seconds ≡ r.window_seconds)
        × ((act_all r actions).max_failures ≡ r.max_failures)
  unfolding act_all
  run-limits [] r = (refl, refl)
  run-limits (a ∷ actions) r =
      let (w, m) = run-limits actions (act r a) in (w ∙ (act-window r a).0, m ∙ (act-window r a).1)

-- If time never falls, then from a limiter without failures on, whatever is checked, fails and
-- succeeds under whatever keys, a check is refused exactly when at least the greatest number of
-- failures allowed have happened under its key since the key's last success and are not older than
-- the window.
pub check_key-recent :
    (r : LoginRateLimiter) (actions : List Action) (now : ℕ) (key : String)
    → r.failures ≡ []
    → Rising 0 (map time_of actions ++ now ∷ [])
    → (check_key (act_all r actions) now key).1 ≡ (
        if leb r.max_failures (length (recent r.window_seconds now (failures_since key actions [])))
        then raise permission_error
        else ok tt)
unfolding check_key
check_key-recent r actions now key empty rising =
    let none_stored : stored r key ≡ [] =
      ap (λ d. or_empty (get d key)) empty ∙ (unfold get in refl) in
    let t =
      run-Tracks key actions 0 r [] now rising
        (rw none_stored (record { sorted = tt; past = tt; same = λ later le. refl })) in
    let (w, m) = run-limits key actions r in
    rw (
      w,
      m,
      discard-recent r.window_seconds now (stored (act_all r actions) key) t.sorted,
      t.same now (omega arith),
    )
