-- ===== src/Utils/KeyedBackoff/Samples.antt =====
-- The theorem on the backoff at concrete inputs.
use agent_setup.Base.{◌+◌, ◌*◌, ◌^◌, ◌≡◌, [], String, leb, min, if◌then◌else◌}
use agent_setup.Base.Eq.{text_eq}
use agent_setup.Base.Result.{ok, raise, overflow_error}
use agent_setup.Utils.KeyedBackoff.{KeyedBackoff, should_proceed, reset}
use agent_setup.Utils.KeyedBackoff.Waiting.{attempt_times, should_proceed-attempt_times}

abbrev half_second : KeyedBackoff String
half_second = record { base = 500; cap = 10000; attempts_of = []; last_time = [] }

should_proceed-attempt_times_example :
    should_proceed (attempt_times (reset half_second "k") "k" (λ n. n * 100) 3) 4200 "k"
    ≡ (if leb 1024 3 then raise overflow_error else ok (leb (200 + min 10000 (500 * 2 ^ 3)) 4200))
should_proceed-attempt_times_example =
    should_proceed-attempt_times half_second "k" (λ n. n * 100) 2 4200
