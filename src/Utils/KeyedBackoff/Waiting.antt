-- ===== src/Utils/KeyedBackoff/Waiting.antt =====
-- How long a key waits.
use agent_setup.Base.{ℕ, suc, ◌+◌, ◌*◌, ◌^◌, ◌≡◌, refl, arith, leb, min, if◌then◌else◌}
use agent_setup.Base.Eq.{Eq, ==_refl}
use agent_setup.Base.Dict.{get, get-insert, get-without}
use agent_setup.Base.Result.{ok, raise, overflow_error}
use agent_setup.Utils.KeyedBackoff.{
  KeyedBackoff, or_zero, attempts, should_proceed, record_attempt, reset,
}

module _ {ℓ} {K : Type ℓ} ⦃e : Eq K⦄ where
  -- `n` attempts on a key, at the times that are given, the first one last.
  unfoldable pub attempt_times : KeyedBackoff K → K → (ℕ → ℕ) → ℕ → KeyedBackoff K
  attempt_times b key at ℕ.zero = b
  attempt_times b key at (suc n) = record_attempt (attempt_times b key at n) (at n) key

  attempts-attempt_times :
      (b : KeyedBackoff K) (key : K) (at : ℕ → ℕ) (n : ℕ)
      → attempts (attempt_times b key at n) key ≡ attempts b key + n
  unfolding attempts attempt_times record_attempt
  attempts-attempt_times b key at ℕ.zero = omega arith
  attempts-attempt_times b key at (suc n) =
      rw (get-insert, ==_refl key) (omega (arith, attempts-attempt_times b key at n))

  same_limits :
      (b : KeyedBackoff K) (key : K) (at : ℕ → ℕ) (n : ℕ)
      → ((attempt_times b key at n).cap ≡ b.cap) × ((attempt_times b key at n).base ≡ b.base)
  unfolding attempt_times record_attempt
  same_limits b key at ℕ.zero = (refl, refl)
  same_limits b key at (suc n) = same_limits b key at n

  last_attempt :
      (b : KeyedBackoff K) (key : K) (at : ℕ → ℕ) (n : ℕ)
      → or_zero (get (attempt_times b key at (suc n)).last_time key) ≡ at n
  unfolding attempt_times record_attempt
  last_attempt b key at n = rw (get-insert, ==_refl key)

  reset-attempts : (b : KeyedBackoff K) (key : K) → attempts (reset b key) key ≡ 0
  unfolding attempts reset
  reset-attempts b key = rw (get-without, ==_refl key)

  -- After a reset and `n + 1` attempts on a key, the last one at the time `at n`, the key may proceed
  -- from the time `at n + min cap (base * 2 ^ (n + 1))` on, and not before; with 1024 attempts or
  -- more the question raises an overflow error instead.
  pub should_proceed-attempt_times :
      (b : KeyedBackoff K) (key : K) (at : ℕ → ℕ) (n now : ℕ)
      → should_proceed (attempt_times (reset b key) key at (suc n)) now key ≡ (
          if leb 1024 (suc n)
          then raise overflow_error
          else ok (leb (at n + min b.cap (b.base * 2 ^ suc n)) now))
  unfolding should_proceed
  should_proceed-attempt_times b key at n now =
      let b' = reset b key in
      let count : attempts (attempt_times b' key at (suc n)) key ≡ suc n =
        omega (arith, attempts-attempt_times b' key at (suc n), reset-attempts b key) in
      let (cap, base) = same_limits b' key at (suc n) in
      let cap' : b'.cap ≡ b.cap = unfold reset in refl in
      let base' : b'.base ≡ b.base = unfold reset in refl in
      rw (count, last_attempt b' key at n, cap, base, cap', base')
