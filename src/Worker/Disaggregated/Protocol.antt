-- ===== src/Worker/Disaggregated/Protocol.antt =====
-- src/exo/worker/disaggregated/protocol.py. What is written to a stream is the list of its bytes.
-- A stream that is read is a parameter, since a socket gives its bytes in pieces of any size, and so
-- is the library that turns messages into bytes: its decoder gives none where it raises.
pub mod Ends
pub mod Reads
pub mod Delivered
pub mod Cut
use agent_setup.Base.{
  ℕ, zero, suc, ◌-◌, Bool, Option, none, some, List, [], ◌∷◌, ◌++◌, String, length, leb,
  if◌then◌else◌,
}
use agent_setup.Base.Result.{Result, ok, raise, ◌>>=◌, or_raise, connection_error, protocol_error}
use agent_setup.Utils.Frames.{to_bytes, from_bytes}

pub data DType : Type 0 where
  bfloat16 float16 float32 : DType

pub record Header : Type 0 where
  pub request_id : String
  pub model_id : String
  pub num_layers : ℕ
  pub dtype : DType
  pub start_pos : ℕ

pub record TensorBlob : Type 0 where
  pub dtype : DType
  pub shape : List ℕ
  pub data_ : List ℕ

pub record KvChunk : Type 0 where
  pub layer_idx : ℕ
  pub num_tokens : ℕ
  pub n_heads : ℕ
  pub head_dim : ℕ
  pub dtype : DType
  pub keys_ : List ℕ
  pub values_ : List ℕ

pub data Message : Type 0 where
  kv_chunk : KvChunk → Message
  arrays_state : (layer_idx : ℕ) → List TensorBlob → Message
  done : (total_tokens : ℕ) → Message
  error_message : (code : ℕ) → String → Message

-- The encoders and decoders of msgspec.
pub record Codec : Type 0 where
  pub encode_header : Header → List ℕ
  pub decode_header : List ℕ → Option Header
  pub encode : Message → List ℕ
  pub decode : List ℕ → Option Message

-- A stream, of which `read n` takes bytes.
pub record Reader : Type 1 where
  pub Source : Type 0
  pub read : Source → ℕ → List ℕ × Source

abbrev pub is_nil {ℓ} : {A : Type ℓ} → List A → Bool
is_nil [] = Bool.true
is_nil (x ∷ xs) = Bool.false

-- write_frame: the bytes of the stream after it.
unfoldable pub write_frame : List ℕ → List ℕ → Result (List ℕ)
write_frame stream payload = do
  header ← to_bytes (length payload)
  ok (stream ++ (header ++ payload))

module _ (reader : Reader) where
  open reader use {Source, read}

  -- The `while` loop of _read_exactly. A round that does not end it adds a byte at least.
  unfoldable pub read_loop : ℕ → ℕ → List ℕ → Source → Option (Result (List ℕ) × Source)
  read_loop zero n buf stream = none
  read_loop (suc fuel) n buf stream =
      let (chunk, stream') = read stream (n - length buf) in
      let rest = read_loop fuel n (buf ++ chunk) stream' in
      if leb n (length buf)
      then some (ok buf, stream)
      else (if is_nil chunk
          then some (if is_nil buf then ok [] else raise connection_error, stream')
          else rest)

  -- _read_exactly
  unfoldable pub read_exactly : ℕ → Source → Option (Result (List ℕ) × Source)
  read_exactly n stream = read_loop (suc n) n [] stream

  -- The second half of read_frame.
  abbrev pub read_payload : Result (List ℕ) → Source → Option (Result (List ℕ) × Source)
  read_payload (raise e) stream = some (raise e, stream)
  read_payload (ok raw) stream =
      if is_nil raw then some (ok [], stream) else read_exactly (from_bytes raw) stream

  abbrev pub then_payload : Option (Result (List ℕ) × Source) → Option (Result (List ℕ) × Source)
  then_payload none = none
  then_payload (some (raw, stream)) = read_payload raw stream

  unfoldable pub read_frame : Source → Option (Result (List ℕ) × Source)
  read_frame stream = then_payload (read_exactly 4 stream)

  -- What a caller makes of the frame.
  abbrev pub with_frame {ℓ} :
      {A : Type ℓ}
      → (List ℕ → Result A)
      → Option (Result (List ℕ) × Source)
      → Option (Result A × Source)
  with_frame f none = none
  with_frame f (some (payload, stream)) = some (payload >>= f, stream)

  module _ (codec : Codec) where
    open codec use {decode, decode_header}

    unfoldable pub read_header : Source → Option (Result Header × Source)
    read_header stream =
        with_frame
          (λ payload.
            if is_nil payload
            then raise connection_error
            else or_raise (decode_header payload) protocol_error)
          (read_frame stream)

    unfoldable pub read_message : Source → Option (Result (Option Message) × Source)
    read_message stream =
        with_frame
          (λ payload.
            if is_nil payload
            then ok none
            else (or_raise (decode payload) protocol_error >>= λ m. ok (some m)))
          (read_frame stream)

module _ (codec : Codec) where
  open codec use {encode, encode_header}

  unfoldable pub write_header : List ℕ → Header → Result (List ℕ)
  write_header stream header = write_frame stream (encode_header header)

  unfoldable pub write_message : List ℕ → Message → Result (List ℕ)
  write_message stream msg = write_frame stream (encode msg)

  unfoldable pub write_kv_chunk :
      List ℕ
      → (layer_idx num_tokens n_heads head_dim : ℕ) → DType
      → (keys values : List ℕ) → Result (List ℕ)
  write_kv_chunk stream layer_idx num_tokens n_heads head_dim dtype keys values =
      write_message stream (
        kv_chunk (record {
          layer_idx = layer_idx;
          num_tokens = num_tokens;
          n_heads = n_heads;
          head_dim = head_dim;
          dtype = dtype;
          keys_ = keys;
          values_ = values;
        }))

  unfoldable pub write_arrays_state : List ℕ → ℕ → List TensorBlob → Result (List ℕ)
  write_arrays_state stream layer_idx arrays = write_message stream (arrays_state layer_idx arrays)

  unfoldable pub write_done : List ℕ → ℕ → Result (List ℕ)
  write_done stream total_tokens = write_message stream (done total_tokens)

  unfoldable pub write_error : List ℕ → ℕ → String → Result (List ℕ)
  write_error stream code message = write_message stream (error_message code message)
