-- ===== src/Utils/KeyedBackoff.antt =====
-- src/exo/utils/keyed_backoff.py. Times are whole numbers of some unit, on a clock that does not go
-- back; `should_proceed` takes the reading of the clock. `2.0 ** attempts` overflows from 1024 on.
pub mod Waiting
mod Samples
use agent_setup.Base.{ℕ, suc, ◌+◌, ◌*◌, ◌^◌, Bool, Option, none, some, leb, min, if◌then◌else◌}
use agent_setup.Base.Eq.{Eq}
use agent_setup.Base.Dict.{Dict, get, insert, without}
use agent_setup.Base.Result.{Result, ok, raise, overflow_error}

pub record KeyedBackoff {ℓ} (K : Type ℓ) : Type ℓ where
  pub base : ℕ
  pub cap : ℕ
  pub attempts_of : Dict K ℕ
  pub last_time : Dict K ℕ

abbrev pub or_zero : Option ℕ → ℕ
or_zero none = 0
or_zero (some n) = n

module _ {ℓ} {K : Type ℓ} ⦃e : Eq K⦄ where
  unfoldable pub attempts : KeyedBackoff K → K → ℕ
  attempts b key = or_zero (get b.attempts_of key)

  unfoldable pub should_proceed : KeyedBackoff K → ℕ → K → Result Bool
  unfolding attempts
  should_proceed b now key =
      if leb 1024 (attempts b key)
      then raise overflow_error
      else ok (leb (or_zero (get b.last_time key) + min b.cap (b.base * 2 ^ attempts b key)) now)

  unfoldable pub record_attempt : KeyedBackoff K → ℕ → K → KeyedBackoff K
  unfolding attempts
  record_attempt b now key = record b {
    last_time = insert b.last_time key now;
    attempts_of = insert b.attempts_of key (attempts b key + 1);
  }

  unfoldable pub reset : KeyedBackoff K → K → KeyedBackoff K
  reset b key = record b {
    attempts_of = without b.attempts_of key;
    last_time = without b.last_time key;
  }
