-- ===== src/Agent/RateLimit.antt =====
-- tools/src/exo_tools/agent_core/auth.py, class `LoginRateLimiter`. Times are
-- readings of a monotonic clock, as natural numbers of some unit.
pub mod Window
pub mod Limit
use agent_setup.Base.{
  ℕ, ◌-◌, ◌+◌, Bool, Option, none, some, List, [], ◌∷◌, ◌++◌, String, ltb, leb, length,
  if◌then◌else◌,
}
use agent_setup.Base.Eq.{text_eq}
use agent_setup.Base.Dict.{Dict, get, insert, without}
use agent_setup.Base.Result.{Result, ok, raise, permission_error}

pub record LoginRateLimiter : Type 0 where
  pub max_failures : ℕ
  pub window_seconds : ℕ
  pub failures : Dict String (List ℕ)

abbrev pub or_empty : Option (List ℕ) → List ℕ
or_empty none = []
or_empty (some times) = times

-- _discard_expired: `failures[0] < now - window`, without a difference below zero.
unfoldable pub discard_expired : (window now : ℕ) → List ℕ → List ℕ
discard_expired window now [] = []
discard_expired window now (time ∷ times) =
    let rest = discard_expired window now times in
    if ltb (time + window) now then rest else time ∷ times

-- What stays of a key's failures. A key that is asked for gets an entry.
abbrev pub trimmed : LoginRateLimiter → (now : ℕ) → String → List ℕ
trimmed r now key = discard_expired r.window_seconds now (or_empty (get r.failures key))

-- The limiter after the check, and whether it passes.
unfoldable pub check_key :
    LoginRateLimiter → (now : ℕ) → String → LoginRateLimiter × Result (Unit {0})
check_key r now key = (
  record r { failures = insert r.failures key (trimmed r now key) },
  if leb r.max_failures (length (trimmed r now key)) then raise permission_error else ok tt,
)

unfoldable pub failed : LoginRateLimiter → (now : ℕ) → String → LoginRateLimiter
failed r now key = record r { failures = insert r.failures key (trimmed r now key ++ now ∷ []) }

unfoldable pub success : LoginRateLimiter → String → LoginRateLimiter
success r key = record r { failures = without r.failures key }
