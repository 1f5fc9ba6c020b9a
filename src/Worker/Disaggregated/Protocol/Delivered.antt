-- ===== src/Worker/Disaggregated/Protocol/Delivered.antt =====
-- Messages are read as they were written.
use agent_setup.Base.{
  ℕ, zero, suc, ◌<◌, ◌≡◌, refl, sym, ap, ◌∙◌, false, none, some, Option, List, [], ◌∷◌, ◌++◌,
  append-nil, append_assoc, length, map, All, arith,
}
use agent_setup.Base.Result.{Result, ok, ◌>>=◌, chain, ok-injective}
use agent_setup.Utils.Frames.{to_bytes, frame, to_bytes-fits}
use agent_setup.Worker.Disaggregated.Protocol.{
  Codec, Reader, Message, is_nil, write_frame, read_message, write_message,
}
use agent_setup.Worker.Disaggregated.Protocol.Reads.{Faithful, read_frame-reads, read_frame-end}

-- Messages, written one after the other.
unfoldable pub write_all : Codec → List ℕ → List Message → Result (List ℕ)
write_all codec stream [] = ok stream
write_all codec stream (m ∷ ms) =
    write_message codec stream m >>= λ stream'. write_all codec stream' ms

abbrev pub in_front {ℓ} : {A : Type ℓ} → A → Option (List A) → Option (List A)
in_front a none = none
in_front a (some rest) = some (a ∷ rest)

-- A message that is read goes in front of those read after it.
abbrev pub and_then {ℓ} :
    {A : Type ℓ} {S : Type 0} → (S → Option (List A)) → Option (A × S) → Option (List A)
and_then more none = none
and_then more (some (a, s)) = in_front a (more s)

-- What a number of calls of `read_message` return.
unfoldable pub read_times :
    (reader : Reader) → Codec → ℕ → reader.Source → Option (List (Result (Option Message)))
read_times reader codec zero s = some []
read_times reader codec (suc n) s =
    and_then (read_times reader codec n) (read_message reader codec s)

module _ (codec : Codec) where
  open codec use {encode, decode}

  abbrev frames : List Message → List ℕ
  frames [] = []
  frames (m ∷ ms) = frame (encode m) ++ frames ms

  abbrev Fits : Message → Type 0
  Fits m = length (encode m) < 4294967296

  write_message-frame :
      (stream bytes : List ℕ) (m : Message)
      → write_message codec stream m ≡ ok bytes
      → Fits m × (stream ++ frame (encode m) ≡ bytes)
  unfolding write_message write_frame
  write_message-frame stream bytes m h =
      let (header, e, h') = chain (to_bytes (length (encode m))) _ bytes h in
      let (fits, e') = to_bytes-fits (length (encode m)) header e in
      (fits, ap (λ l. stream ++ (l ++ encode m)) e' ∙ ok-injective _ bytes h')

  write_all-frames :
      (ms : List Message) (stream bytes : List ℕ)
      → write_all codec stream ms ≡ ok bytes
      → All Fits ms × (stream ++ frames ms ≡ bytes)
  unfolding write_all
  write_all-frames [] stream bytes h = (tt, append-nil stream ∙ ok-injective stream bytes h)
  write_all-frames (m ∷ ms) stream bytes h =
      let (stream', e, h') = chain (write_message codec stream m) _ bytes h in
      let (fits, e1) = write_message-frame stream stream' m e in
      let (all, e2) = write_all-frames ms stream' bytes h' in
      (
        (fits, all),
        sym (append_assoc stream (frame (encode m)) (frames ms)) ∙ ap (λ l. l ++ frames ms) e1 ∙ e2,
      )

  module _ (reader : Reader) (faithful : Faithful reader) where
    open reader use {Source}
    open faithful use {left}

    nonempty : (xs : List ℕ) → 0 < length xs → is_nil xs ≡ false
    nonempty [] h = absurd (omega arith)
    nonempty (x ∷ xs) h = refl

    read_message-reads :
        (m : Message) (rest : List ℕ) (s : Source)
        → decode (encode m) ≡ some m
        → 0 < length (encode m)
        → Fits m
        → left s ≡ frame (encode m) ++ rest
        → (s' : Source) × (read_message reader codec s ≡ some (ok (some m), s')) × (left s' ≡ rest)
    unfolding read_message
    read_message-reads m rest s back some_bytes fits h =
        let (s', e, h') = read_frame-reads reader faithful (encode m) rest s fits h in
        (s', rw (e, nonempty (encode m) some_bytes, back), h')

    read_times-frames :
        (ms : List Message) (s : Source)
        → All (λ m. decode (encode m) ≡ some m) ms
        → All (λ m. 0 < length (encode m)) ms
        → All Fits ms
        → left s ≡ frames ms
        → read_times reader codec (suc (length ms)) s
          ≡ some (map (λ m. ok (some m)) ms ++ ok none ∷ [])
    unfolding read_times
    read_times-frames [] s back some_bytes fits h =
        let (s', e) = read_frame-end reader faithful s h in unfold read_message in rw e
    read_times-frames (m ∷ ms) s back some_bytes fits h =
        let (s', e, h') = read_message-reads m (frames ms) s back.0 some_bytes.0 fits.0 h in
        rw e (ap (in_front (ok (some m))) (read_times-frames ms s' back.1 some_bytes.1 fits.1 h'))

    -- Messages that are written, one after the other, and then read from a stream that gives the
    -- bytes in pieces of any size, are read as they were, in order, and then there is none. The
    -- stream gives its bytes in order, at most as many as are asked for, and none only when none
    -- are left or asked for; each message is read back from its bytes, which are one at least.
    pub read_times-write_all :
        (ms : List Message) (bytes : List ℕ) (s : Source)
        → All (λ m. decode (encode m) ≡ some m) ms
        → All (λ m. 0 < length (encode m)) ms
        → write_all codec [] ms ≡ ok bytes
        → left s ≡ bytes
        → read_times reader codec (suc (length ms)) s
          ≡ some (map (λ m. ok (some m)) ms ++ ok none ∷ [])
    read_times-write_all ms bytes s back some_bytes h all =
        let (fits, e) = write_all-frames ms [] bytes h in
        read_times-frames ms s back some_bytes fits (all ∙ sym e)
