-- ===== src/Utils/DiskEventLog/Samples.antt =====
-- The theorem on the log at a concrete use.
use agent_setup.Base.{ℕ, zero, suc, ◌≡◌, refl, List, [], ◌∷◌, arith}
use agent_setup.Base.Int.{pos}
use agent_setup.Base.Seq.{take, drop}
use agent_setup.Base.Result.{Result, ok, raise, value_error}
use agent_setup.Utils.DiskEventLog.{Codec, new_log}
use agent_setup.Utils.DiskEventLog.Uses.{
  Use, appends, reads, reads_all, use_all, yields_all, log-yields,
}

-- A number n is written as n zeros and a one.
abbrev written : ℕ → List ℕ
written zero = 1 ∷ []
written (suc n) = 0 ∷ written n

abbrev one_up : Result ℕ → Result ℕ
one_up (ok n) = ok (suc n)
one_up (raise e) = raise e

abbrev read_back : List ℕ → Result ℕ
read_back [] = raise value_error
read_back (zero ∷ bytes) = one_up (read_back bytes)
read_back (suc n ∷ bytes) = ok 0

read_written : (n : ℕ) → read_back (written n) ≡ ok n
read_written zero = refl
read_written (suc n) = rw (read_written n)

abbrev numbers : Codec ℕ
numbers = record { serialize_event = written; deserialize_event = read_back }

abbrev uses : List (Use ℕ)
uses =
    appends 3
    ∷ appends 0
    ∷ reads (pos 1) (pos 9)
    ∷ appends 2
    ∷ reads (pos 0) (pos 2)
    ∷ reads_all
    ∷ []

yielded :
    yields_all numbers [] uses ≡ [] ∷ [] ∷ (0 ∷ []) ∷ [] ∷ (3 ∷ 0 ∷ []) ∷ (3 ∷ 0 ∷ 2 ∷ []) ∷ []
unfolding yields_all take drop
yielded = refl

log-yields_example : use_all numbers new_log uses ≡ ok (yields_all numbers [] uses)
log-yields_example =
    log-yields numbers read_written uses
      (omega arith, (omega arith, (tt, (omega arith, (tt, (tt, tt))))))
