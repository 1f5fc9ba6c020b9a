-- ===== src/Utils/DiskEventLog/Offsets.antt =====
-- Positions in the file that are the beginning of a record.
use agent_setup.Base.{
  ℕ, zero, suc, ◌+◌, ◌≤◌, ◌<◌, ◌≡◌, refl, sym, ap, ◌∙◌, subst, false, some, List, [], ◌∷◌, ◌++◌,
  append_assoc, length, length-append, ltb, All, arith,
}
use agent_setup.Base.Seq.{take, drop}
use agent_setup.Base.Result.{ok}
use agent_setup.Utils.Frames.{
  frame, big_endian, from_bytes-big_endian, take-append, drop-append, drop-zero, drop-plus,
  length-drop, drop-early,
}
use agent_setup.Utils.DiskEventLog.{Codec, skip_record, skip_records, read_record, read_records}

module _ {ℓ} {A : Type ℓ} where
  pub drop-suc :
      (n : ℕ) (xs : List A) (x : A) (rest : List A) → drop n xs ≡ x ∷ rest → drop (suc n) xs ≡ rest
  unfolding drop
  drop-suc zero [] x rest h = absurd (cc)
  drop-suc zero (y ∷ xs) x rest h = drop-zero xs ∙ (cc)
  drop-suc (suc n) [] x rest h = absurd (cc)
  drop-suc (suc n) (y ∷ xs) x rest h = drop-suc n xs x rest h

  pub drop-within :
      (n : ℕ) (xs : List A) → n < length xs → (x : A) × (rest : List A) × (drop n xs ≡ x ∷ rest)
  unfolding drop
  drop-within n [] h = absurd (omega arith)
  drop-within zero (x ∷ xs) h = (x, xs, refl)
  drop-within (suc n) (x ∷ xs) h = drop-within n xs (omega arith)

  All-drop :
      (P : A → Type 0) (n : ℕ) (xs : List A) (x : A) (rest : List A)
      → All P xs
      → drop n xs ≡ x ∷ rest
      → P x
  unfolding drop
  All-drop P zero [] x rest all h = absurd (cc)
  All-drop P (suc n) [] x rest all h = absurd (cc)
  All-drop P zero (y ∷ xs) x rest all h = let e : y ≡ x = cc in subst P e all.0
  All-drop P (suc n) (y ∷ xs) x rest all h = All-drop P n xs x rest all.1 h

ltb_irrefl : (n : ℕ) → ltb n n ≡ false
ltb_irrefl n = ground arith

module _ {E : Type 0} (codec : Codec E) where
  open codec use {serialize_event}

  -- The event's length fits in a header.
  abbrev pub Fits : E → Type 0
  Fits e = length (serialize_event e) < 4294967296

  abbrev pub records : List E → List ℕ
  records [] = []
  records (e ∷ es) = frame (serialize_event e) ++ records es

  pub records-append : (xs ys : List E) → records (xs ++ ys) ≡ records xs ++ records ys
  records-append [] ys = refl
  records-append (x ∷ xs) ys =
      ap (λ l. frame (serialize_event x) ++ l) (records-append xs ys)
      ∙ sym (append_assoc (frame (serialize_event x)) (records xs) (records ys))

  -- The record of the event at index i begins at the position.
  pub record At (file : List ℕ) (events : List E) (i at : ℕ) : Type 0 where
    pub inside : at ≤ length file
    pub within : i ≤ length events
    pub left : drop at file ≡ records (drop i events)

  module _ (file : List ℕ) (at : ℕ) (payload rest : List ℕ)
      (view : drop at file ≡ frame payload ++ rest) where
    header_at : take 4 (drop at file) ≡ big_endian (length payload)
    unfolding take
    header_at = rw view

    payload_at : drop (at + 4) file ≡ payload ++ rest
    unfolding drop
    payload_at = drop-plus at 4 file ∙ (rw view)

    after_at : drop (at + 4 + length payload) file ≡ rest
    after_at =
        drop-plus (at + 4) (length payload) file
        ∙ ap (drop (length payload)) payload_at
        ∙ drop-append payload rest

    skip_record-frame : length payload < 4294967296 → skip_record file at ≡ at + 4 + length payload
    unfolding skip_record
    skip_record-frame fits = rw (header_at, from_bytes-big_endian (length payload) fits)

    read_record-frame :
        (e : E)
        → length payload < 4294967296
        → codec.deserialize_event payload ≡ ok e
        → read_record codec file at ≡ ok (some e, at + 4 + length payload)
    unfolding read_record
    read_record-frame e fits back =
        rw
          (
            header_at,
            from_bytes-big_endian (length payload) fits,
            payload_at,
            take-append payload rest,
          )
          (rw (back, ltb_irrefl (length payload)))

  pub At-start : (file : List ℕ) (events : List E) → file ≡ records events → At file events 0 0
  At-start file events h = record {
    inside = omega arith;
    within = omega arith;
    left = drop-zero file ∙ h ∙ ap records (sym (drop-zero events));
  }

  -- What a record's beginning shows, and where the next one begins.
  pub record Next (file : List ℕ) (events : List E) (i at : ℕ) : Type 0 where
    pub event : E
    pub rest : List E
    pub head : drop i events ≡ event ∷ rest
    pub view : drop at file ≡ frame (serialize_event event) ++ records rest
    pub next : At file events (suc i) (at + 4 + length (serialize_event event))

  pub At-Next :
      (file : List ℕ) (events : List E) (i at : ℕ)
      → At file events i at
      → i < length events
      → Next file events i at
  At-Next file events i at h lt =
      let (e, rest, head) = drop-within i events lt in
      let view : drop at file ≡ frame (serialize_event e) ++ records rest =
        h.left ∙ ap records head in
      let size = length-drop at file h.inside in
      let long = ap length view ∙ length-append (frame (serialize_event e)) (records rest) in
      record {
        event = e;
        rest = rest;
        head = head;
        view = view;
        next = record {
          inside = omega arith;
          within = omega arith;
          left =
              after_at file at (serialize_event e) (records rest) view
              ∙ ap records (sym (drop-suc i events e rest head));
        };
      }

  -- More events at the end of the file leave the beginnings of records where they are.
  pub At-append :
      (file : List ℕ) (events : List E) (i at : ℕ) (more : List E)
      → At file events i at
      → At (file ++ records more) (events ++ more) i at
  At-append file events i at more h = record {
    inside = let size = length-append file (records more) in let le = h.inside in omega arith;
    within = let size = length-append events more in let le = h.within in omega arith;
    left =
        drop-early at file (records more) h.inside
        ∙ ap (λ l. l ++ records more) h.left
        ∙ sym (records-append (drop i events) more)
        ∙ ap records (sym (drop-early i events more h.within));
  }

  pub skip_records-At :
      (file : List ℕ) (events : List E) (n i at : ℕ)
      → All Fits events
      → At file events i at
      → i + n ≤ length events
      → At file events (i + n) (skip_records n file at)
  unfolding skip_records
  skip_records-At file events zero i at fits h le = subst (λ k. At file events k at) (omega arith) h
  skip_records-At file events (suc n) i at fits h le =
      let next = At-Next file events i at h (omega arith) in
      let fit = All-drop Fits i events next.event next.rest fits next.head in
      let e =
        skip_record-frame file at (serialize_event next.event) (records next.rest) next.view fit in
      let h' =
        skip_records-At file events n (suc i) (at + 4 + length (serialize_event next.event)) fits
          next.next (omega arith) in
      rw e (
        subst
          (λ k.
            At file events k (skip_records n file (at + 4 + length (serialize_event next.event))))
          (omega arith) h')

  -- Records that are read are the events at their indices.
  pub read_records-At :
      ((e : E) → codec.deserialize_event (serialize_event e) ≡ ok e)
      → (file : List ℕ) (events : List E) (n i at : ℕ) → All Fits events
      → At file events i at
      → i + n ≤ length events
      → (after : ℕ) × At file events (i + n) after
        × (read_records codec n file at ≡ ok (take n (drop i events), after))
  unfolding read_records take
  read_records-At back file events zero i at fits h le =
      (at, subst (λ k. At file events k at) (omega arith) h, refl)
  read_records-At back file events (suc n) i at fits h le =
      let next = At-Next file events i at h (omega arith) in
      let fit = All-drop Fits i events next.event next.rest fits next.head in
      let e =
        read_record-frame file at (serialize_event next.event) (records next.rest) next.view
          next.event fit (back next.event) in
      let (after, h', r) =
        read_records-At back file events n (suc i) (at + 4 + length (serialize_event next.event))
          fits next.next (omega arith) in
      (
        after,
        subst (λ k. At file events k after) (omega arith) h',
        rw (e, r, drop-suc i events next.event next.rest next.head, next.head),
      )
