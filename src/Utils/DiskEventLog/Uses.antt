-- ===== src/Utils/DiskEventLog/Uses.antt =====
-- A log that is used: appended to and read in any order.
use agent_setup.Base.{◌≡◌, refl, List, [], ◌∷◌, ◌++◌, All}
use agent_setup.Base.Eq.{number_eq}
use agent_setup.Base.Int.{ℤ}
use agent_setup.Base.Result.{Result, ok, ◌>>=◌}
use agent_setup.Utils.DiskEventLog.{Codec, DiskEventLog, new_log, append, read_range, read_all}
use agent_setup.Utils.DiskEventLog.Offsets.{Fits}
use agent_setup.Utils.DiskEventLog.Slices.{
  Holds, Holds-new, slice, read_range-slice, read_all-events, append-Holds,
}

-- What the master does with its log.
pub data Use (E : Type 0) : Type 0 where
  appends : E → Use E
  reads : ℤ → ℤ → Use E
  reads_all : Use E

module _ {E : Type 0} (codec : Codec E) where
  open codec use {serialize_event, deserialize_event}

  -- What is yielded, and the log after it.
  unfoldable pub use_log : DiskEventLog → Use E → Result (List E × DiskEventLog)
  use_log log (appends event) = append codec log event >>= λ log'. ok ([], log')
  use_log log (reads start end) =
      (read_range codec log start end).0 >>= λ es. ok (es, (read_range codec log start end).1)
  use_log log reads_all = read_all codec log >>= λ es. ok (es, log)

  unfoldable pub use_all : DiskEventLog → List (Use E) → Result (List (List E))
  use_all log [] = ok []
  use_all log (u ∷ us) = use_log log u >>= λ p. use_all p.1 us >>= λ rest. ok (p.0 ∷ rest)

  -- The same of a list of events.
  abbrev pub appended : List E → Use E → List E
  appended events (appends event) = events ++ event ∷ []
  appended events _ = events

  abbrev pub yields : List E → Use E → List E
  yields events (appends event) = []
  yields events (reads start end) = slice codec start end events
  yields events reads_all = events

  unfoldable pub yields_all : List E → List (Use E) → List (List E)
  yields_all events [] = []
  yields_all events (u ∷ us) = yields events u ∷ yields_all (appended events u) us

  -- The bytes of an event that is appended can be counted in a header.
  abbrev pub FitsUse : Use E → Type 0
  FitsUse (appends event) = Fits codec event
  FitsUse _ = Unit {0}

  use_log-yields :
      ((e : E) → deserialize_event (serialize_event e) ≡ ok e)
      → (log : DiskEventLog) (events : List E) (u : Use E) → Holds codec log events
      → FitsUse u
      → (log' : DiskEventLog) × (use_log log u ≡ ok (yields events u, log'))
        × Holds codec log' (appended events u)
  unfolding use_log
  use_log-yields back log events (appends event) h fit =
      let (log', e, h') = append-Holds codec log events event h fit in (log', rw e, h')
  use_log-yields back log events (reads start end) h fit =
      let (e, h') = read_range-slice codec back log events start end h in
      ((read_range codec log start end).1, rw e, h')
  use_log-yields back log events reads_all h fit =
      (log, rw (read_all-events codec back log events h), h)

  use_all-yields :
      ((e : E) → deserialize_event (serialize_event e) ≡ ok e)
      → (uses : List (Use E)) (log : DiskEventLog) (events : List E) → Holds codec log events
      → All FitsUse uses
      → use_all log uses ≡ ok (yields_all events uses)
  unfolding use_all yields_all
  use_all-yields back [] log events h fits = refl
  use_all-yields back (u ∷ us) log events h fits =
      let (log', e, h') = use_log-yields back log events u h fits.0 in
      rw (e, use_all-yields back us log' (appended events u) h' fits.1)

  -- If an event is read back from its bytes and the bytes of each event that is appended are fewer
  -- than 2 ^ 32, then, in whatever order a new log is appended to and read, nothing raises, a range
  -- that is read is that slice of the events appended so far, and reading all yields all of them.
  pub log-yields :
      ((e : E) → deserialize_event (serialize_event e) ≡ ok e)
      → (uses : List (Use E)) → All FitsUse uses
      → use_all new_log uses ≡ ok (yields_all [] uses)
  log-yields back uses fits = use_all-yields back uses new_log [] (Holds-new codec) fits
