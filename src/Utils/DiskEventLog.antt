-- ===== src/Utils/DiskEventLog.antt =====
-- src/exo/utils/disk_event_log.py, class `DiskEventLog`. The active file is the list of its bytes,
-- a position in it a number; a reader sees all that was written, since a flush comes before. The
-- generators are taken as they are when they are run to their end. How an event becomes bytes is a
-- parameter. The compressed archives are not modelled.
pub mod Offsets
pub mod Slices
pub mod Uses
mod Samples
use agent_setup.Base.{
  ℕ, zero, suc, ◌+◌, ◌-◌, min, Bool, Option, none, some, List, [], ◌∷◌, ◌++◌, length, ltb, leb,
  nat_beq, if◌then◌else◌,
}
use agent_setup.Base.Eq.{number_eq}
use agent_setup.Base.Int.{ℤ, pos, negsuc}
use agent_setup.Base.Seq.{take, drop}
use agent_setup.Base.Dict.{Dict, get, without}
use agent_setup.Base.Result.{Result, ok, raise, ◌>>=◌}
use agent_setup.Utils.Frames.{to_bytes, from_bytes}

-- _serialize_event and _deserialize_event.
pub record Codec (E : Type 0) : Type 0 where
  pub serialize_event : E → List ℕ
  pub deserialize_event : List ℕ → Result E

pub record DiskEventLog : Type 0 where
  pub offset_cache : Dict ℕ ℕ
  pub count : ℕ
  pub file : List ℕ

-- `__init__`, after a stale file is gone.
abbrev pub new_log : DiskEventLog
new_log = record { offset_cache = []; count = 0; file = [] }

-- d[k] = v; d.move_to_end(k)
abbrev pub put_last : Dict ℕ ℕ → ℕ → ℕ → Dict ℕ ℕ
put_last cache idx offset = without cache idx ++ (idx, offset) ∷ []

-- _cache_offset
unfoldable pub cache_offset : Dict ℕ ℕ → ℕ → ℕ → Dict ℕ ℕ
cache_offset cache idx offset =
    let cache' = put_last cache idx offset in
    if ltb 128 (length cache') then drop 1 cache' else cache'

-- Where the scan of _seek_to starts.
unfoldable pub scan_from : ℕ → Dict ℕ ℕ → ℕ × ℕ → ℕ × ℕ
scan_from target_idx [] from = from
scan_from target_idx ((cached_idx, offset) ∷ cache) from =
    scan_from target_idx cache (if ltb cached_idx target_idx then (cached_idx, offset) else from)

-- _skip_record: the position after it.
unfoldable pub skip_record : List ℕ → ℕ → ℕ
skip_record bytes at =
    let header = take 4 (drop at bytes) in
    if ltb (length header) 4 then at + length header else at + 4 + from_bytes header

unfoldable pub skip_records : ℕ → List ℕ → ℕ → ℕ
skip_records zero bytes at = at
skip_records (suc n) bytes at = skip_records n bytes (skip_record bytes at)

-- _seek_to, when the cache has the index and when it has not.
abbrev pub sought : DiskEventLog → ℕ → Option ℕ → ℕ × Dict ℕ ℕ
sought log target_idx (some offset) = (offset, put_last log.offset_cache target_idx offset)
sought log target_idx none =
    let from = scan_from target_idx log.offset_cache (0, 0) in
    let at = skip_records (target_idx - from.0) log.file from.1 in
    (at, cache_offset log.offset_cache target_idx at)

-- _seek_to: the position, and the cache after it.
unfoldable pub seek_to : DiskEventLog → ℕ → ℕ × Dict ℕ ℕ
seek_to log target_idx = sought log target_idx (get log.offset_cache target_idx)

module _ {E : Type 0} (codec : Codec E) where
  open codec use {serialize_event, deserialize_event}

  unfoldable pub append : DiskEventLog → E → Result DiskEventLog
  append log event = do
    header ← to_bytes (length (serialize_event event))
    ok (record log { file = log.file ++ (header ++ serialize_event event); count = suc log.count })

  -- _read_record: the event, if one is there, and the position after it.
  unfoldable pub read_record : List ℕ → ℕ → Result (Option E × ℕ)
  read_record bytes at =
      let header = take 4 (drop at bytes) in
      let payload = take (from_bytes header) (drop (at + 4) bytes) in
      if ltb (length header) 4
      then ok (none, at + length header)
      else (if ltb (length payload) (from_bytes header)
          then ok (none, at + 4 + length payload)
          else (deserialize_event payload >>= λ event. ok (some event, at + 4 + from_bytes header)))

  -- The loop over records, which ends early when no event is there.
  unfoldable pub read_records : ℕ → List ℕ → ℕ → Result (List E × ℕ)
  read_records zero bytes at = ok ([], at)
  read_records (suc n) bytes at = read_record bytes at >>= λ p. elim p.0 [
    | none ↦ ok ([], p.1)
    | some event ↦ read_records n bytes p.1 >>= λ q. ok (event ∷ q.0, q.1)
  ]

  -- What is yielded, and the log after it.
  abbrev pub finish_range : DiskEventLog → ℕ → Result (List E × ℕ) → Result (List E) × DiskEventLog
  finish_range log end (raise e) = (raise e, log)
  finish_range log end (ok (events, at)) = (
    ok events,
    record log {
      offset_cache =
          if ltb end log.count then cache_offset log.offset_cache end at else log.offset_cache;
    },
  )

  unfoldable pub read_range : DiskEventLog → ℤ → ℤ → Result (List E) × DiskEventLog
  read_range log (pos start) (pos end) =
      let last = min end log.count in
      let (at, cache) = seek_to log start in
      if leb last start
      then (ok [], log)
      else finish_range (record log { offset_cache = cache }) last
          (read_records (last - start) log.file at)
  read_range log _ _ = (ok [], log)

  unfoldable pub read_all : DiskEventLog → Result (List E)
  read_all log =
      if nat_beq log.count 0 then ok [] else (read_records log.count log.file 0 >>= λ p. ok p.0)
