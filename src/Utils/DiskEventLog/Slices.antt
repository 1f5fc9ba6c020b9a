-- ===== src/Utils/DiskEventLog/Slices.antt =====
-- The log on disk as a list of events.
use agent_setup.Base.{
  ℕ, zero, suc, ◌-◌, ◌≤◌, min, ◌≡◌, refl, sym, ap, ◌∙◌, subst, Bool, true, false, inl, inr,
  Bool-cases, none, some, Option, List, [], ◌∷◌, ◌++◌, append-nil, length, length-append, ltb, leb,
  nat_beq, if◌then◌else◌, All, All-append, All-map, All-Mem, arith,
}
use agent_setup.Base.Eq.{◌==◌, number_eq}
use agent_setup.Base.Int.{ℤ, pos, negsuc}
use agent_setup.Base.Seq.{take, drop, take_all}
use agent_setup.Base.Dict.{Dict, get, without, get-Mem}
use agent_setup.Base.Result.{ok}
use agent_setup.Utils.Frames.{to_bytes, frame, drop-zero}
use agent_setup.Utils.DiskEventLog.{
  Codec, DiskEventLog, new_log, put_last, cache_offset, scan_from, skip_records, seek_to, sought,
  append, read_range, read_all,
}
use agent_setup.Utils.DiskEventLog.Offsets.{
  Fits, records, records-append, At, At-start, At-append, skip_records-At, read_records-At,
}

module _ (P : ℕ × ℕ → Type 0) where
  All-without : (cache : Dict ℕ ℕ) (idx : ℕ) → All P cache → All P (without cache idx)
  unfolding without
  All-without [] idx all = tt
  All-without ((i, o) ∷ cache) idx all = elim (Bool-cases (i == idx)) [
    | inl same ↦ rw same (All-without cache idx all.1)
    | inr apart ↦ rw apart (all.0, All-without cache idx all.1)
  ]

  All-put_last :
      (cache : Dict ℕ ℕ) (idx at : ℕ) → P (idx, at) → All P cache → All P (put_last cache idx at)
  All-put_last cache idx at p all =
      All-append P (without cache idx) ((idx, at) ∷ []) (All-without cache idx all) (p, tt)

  All-drop_first : (cache : Dict ℕ ℕ) → All P cache → All P (drop 1 cache)
  unfolding drop
  All-drop_first [] all = tt
  All-drop_first (p ∷ []) all = tt
  All-drop_first (p ∷ q ∷ cache) all = all.1

  All-cache_offset :
      (cache : Dict ℕ ℕ) (idx at : ℕ)
      → P (idx, at)
      → All P cache
      → All P (cache_offset cache idx at)
  unfolding cache_offset
  All-cache_offset cache idx at p all =
      let all' = All-put_last cache idx at p all in
      elim (Bool-cases (ltb 128 (length (put_last cache idx at)))) [
        | inl full ↦ rw full (All-drop_first (put_last cache idx at) all')
        | inr room ↦ rw room all'
      ]

  All-if : (b : Bool) (c d : Dict ℕ ℕ) → All P c → All P d → All P (if b then c else d)
  All-if true c d hc hd = hc
  All-if false c d hc hd = hd

  chosen :
      (target : ℕ) (x from : ℕ × ℕ) (b : Bool)
      → (b ≡ true → P x × (x.0 ≤ target))
      → P from × (from.0 ≤ target)
      → P (if b then x else from) × ((if b then x else from).0 ≤ target)
  chosen target x from true f g = f refl
  chosen target x from false f g = g

  scan_from-At :
      (target : ℕ) (cache : Dict ℕ ℕ) (from : ℕ × ℕ)
      → P from
      → from.0 ≤ target
      → All P cache
      → P (scan_from target cache from) × ((scan_from target cache from).0 ≤ target)
  unfolding scan_from
  scan_from-At target [] from p le all = (p, le)
  scan_from-At target ((i, o) ∷ cache) from p le all =
      let (p', le') =
        chosen target (i, o) from (ltb i target) (λ below. (all.0, ground arith)) (p, le) in
      scan_from-At target cache (if ltb i target then (i, o) else from) p' le' all.1

module _ {E : Type 0} (codec : Codec E) where
  open codec use {serialize_event, deserialize_event}

  -- The log holds the events.
  pub record Holds (log : DiskEventLog) (events : List E) : Type 0 where
    pub written : log.file ≡ records codec events
    pub counted : log.count ≡ length events
    pub fits : All (Fits codec) events
    pub cached : All (λ (p : ℕ × ℕ). At codec log.file events p.0 p.1) log.offset_cache

  pub Holds-new : Holds new_log []
  Holds-new = record { written = refl; counted = refl; fits = tt; cached = tt }

  -- Another cache of beginnings.
  Holds-cache :
      (log : DiskEventLog) (events : List E) (cache : Dict ℕ ℕ)
      → Holds log events
      → All (λ (p : ℕ × ℕ). At codec log.file events p.0 p.1) cache
      → Holds (record log { offset_cache = cache }) events
  Holds-cache log events cache h all = record {
    written = h.written;
    counted = h.counted;
    fits = h.fits;
    cached = all;
  }

  abbrev AllAt : DiskEventLog → List E → Dict ℕ ℕ → Type 0
  AllAt log events cache = All (λ (p : ℕ × ℕ). At codec log.file events p.0 p.1) cache

  sought-At :
      (log : DiskEventLog) (events : List E) (target : ℕ) (o : Option ℕ)
      → Holds log events
      → target ≤ length events
      → get log.offset_cache target ≡ o
      → At codec log.file events target (sought log target o).0
        × AllAt log events (sought log target o).1
  sought-At log events target (some at) h le e =
      let here =
        All-Mem _ log.offset_cache (target, at) h.cached (get-Mem log.offset_cache target at e) in
      (here, All-put_last _ log.offset_cache target at here h.cached)
  sought-At log events target none h le e =
      let from = scan_from target log.offset_cache (0, 0) in
      let at = skip_records (target - from.0) log.file from.1 in
      let (start, below) =
        scan_from-At (λ (p : ℕ × ℕ). At codec log.file events p.0 p.1) target log.offset_cache
          (0, 0) (At-start codec log.file events h.written) (omega arith) h.cached in
      let there =
        skip_records-At codec log.file events (target - from.0) from.0 from.1 h.fits start
          (omega arith) in
      let here = subst (λ k. At codec log.file events k at) (omega arith) there in
      (here, All-cache_offset _ log.offset_cache target at here h.cached)

  -- The slice of a list that `read_range` stands for.
  abbrev pub slice : ℤ → ℤ → List E → List E
  slice (pos start) (pos end) events = take (min end (length events) - start) (drop start events)
  slice _ _ events = []

  take-nothing : (n : ℕ) (xs : List E) → n ≡ 0 → take n xs ≡ []
  unfolding take
  take-nothing zero [] h = refl
  take-nothing zero (x ∷ xs) h = refl
  take-nothing (suc n) xs h = absurd (omega arith)

  pub read_range-slice :
      ((e : E) → deserialize_event (serialize_event e) ≡ ok e)
      → (log : DiskEventLog) (events : List E) (start end : ℤ) → Holds log events
      → ((read_range codec log start end).0 ≡ ok (slice start end events))
        × Holds (read_range codec log start end).1 events
  unfolding read_range seek_to
  read_range-slice back log events (negsuc start) (pos end) h = (refl, h)
  read_range-slice back log events (negsuc start) (negsuc end) h = (refl, h)
  read_range-slice back log events (pos start) (negsuc end) h = (refl, h)
  read_range-slice back log events (pos start) (pos end) h =
      elim (Bool-cases (leb (min end log.count) start)) [
        | inl empty ↦ rw empty (
          ap ok (
              sym (
                take-nothing (min end (length events) - start) (drop start events)
                  (let counted = h.counted in ground arith))),
          h,
        )
        | inr some_ ↦
            let counted = h.counted in
            let (here, all) =
              sought-At log events start (get log.offset_cache start) h (ground arith) refl in
            let (after, there, r) =
              read_records-At codec back log.file events (min end log.count - start) start
                (sought log start (get log.offset_cache start)).0 h.fits here (ground arith) in
            rw (some_, r)
              (
                ap (λ c. ok (take (min end c - start) (drop start events))) counted,
                let last = min end log.count in
                    let there' =
                      subst (λ k. At codec log.file events k after) (ground arith) there in
                    Holds-cache log events _ h (
                      All-if (λ (p : ℕ × ℕ). At codec log.file events p.0 p.1) (ltb last log.count)
                        _ _ (All-cache_offset _ (seek_to log start).1 last after there' all) all),
              )
      ]

  pub read_all-events :
      ((e : E) → deserialize_event (serialize_event e) ≡ ok e)
      → (log : DiskEventLog) (events : List E) → Holds log events
      → read_all codec log ≡ ok events
  unfolding read_all
  read_all-events back log events h = elim (Bool-cases (nat_beq log.count 0)) [
    | inl empty ↦
        rw empty (ap ok (sym (no_events events (let counted = h.counted in ground arith))))
    | inr some_ ↦
        let counted = h.counted in
        let (after, there, r) =
          read_records-At codec back log.file events log.count 0 0 h.fits
            (At-start codec log.file events h.written) (omega arith) in
        rw (some_, r, counted, drop-zero events) (ap ok (take_all events))
  ]
    where
      no_events : (xs : List E) → length xs ≡ 0 → xs ≡ []
      no_events [] e = refl
      no_events (x ∷ xs) e = absurd (omega arith)

  pub append-Holds :
      (log : DiskEventLog) (events : List E) (event : E)
      → Holds log events
      → Fits codec event
      → (log' : DiskEventLog) × (append codec log event ≡ ok log')
        × Holds log' (events ++ event ∷ [])
  unfolding append to_bytes
  append-Holds log events event h fit =
      let small : ltb (length (serialize_event event)) 4294967296 ≡ true = ground arith in
      let file' = log.file ++ frame (serialize_event event) in
      let more = append-nil (frame (serialize_event event)) in
      let file_is : log.file ++ records codec (event ∷ []) ≡ file' = ap (λ l. log.file ++ l) more in
      let log' = record log { file = file'; count = suc log.count } in
      (
        log',
        rw small,
        record {
          written =
              sym file_is
              ∙ ap (λ l. l ++ records codec (event ∷ [])) h.written
              ∙ sym (records-append codec events (event ∷ []));
          counted = let counted = h.counted in omega (arith, length-append events (event ∷ []));
          fits = All-append (Fits codec) events (event ∷ []) h.fits (fit, tt);
          cached =
              All-map _ _ log.offset_cache
                (λ p at.
                  subst (λ f. At codec f (events ++ event ∷ []) p.0 p.1) file_is
                    (At-append codec log.file events p.0 p.1 (event ∷ []) at))
                h.cached;
        },
      )
