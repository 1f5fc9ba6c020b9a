-- ===== src/Worker/Disaggregated/Samples.antt =====
-- The theorems on the protocol at concrete streams.
use agent_setup.Base.{
  ℕ, zero, suc, ◌≡◌, refl, Option, none, some, List, [], ◌∷◌, ◌++◌, length, ◌≤◌, ◌<◌, arith,
}
use agent_setup.Base.Result.{Result, ok, raise, connection_error}
use agent_setup.Utils.Frames.{to_bytes, big_endian}
use agent_setup.Worker.Disaggregated.Protocol.{
  Codec, Reader, Message, done, read_message, read_exactly, write_message, write_frame,
}
use agent_setup.Worker.Disaggregated.Protocol.Reads.{Faithful}
use agent_setup.Worker.Disaggregated.Protocol.Ends.{read_exactly-ends}
use agent_setup.Worker.Disaggregated.Protocol.Delivered.{
  write_all, read_times, read_times-write_all,
}
use agent_setup.Worker.Disaggregated.Protocol.Cut.{read_message-cut}

-- A stream that gives its bytes one at a time.
abbrev one_byte : List ℕ → ℕ → List ℕ × List ℕ
one_byte bytes zero = ([], bytes)
one_byte [] (suc n) = ([], [])
one_byte (b ∷ bytes) (suc n) = (b ∷ [], bytes)

abbrev slow : Reader
slow = record { Source = List ℕ; read = one_byte }

slow-in_order : (s : List ℕ) (n : ℕ) → (one_byte s n).0 ++ (one_byte s n).1 ≡ s
slow-in_order s zero = refl
slow-in_order [] (suc n) = refl
slow-in_order (b ∷ s) (suc n) = refl

slow-at_most : (s : List ℕ) (n : ℕ) → length (one_byte s n).0 ≤ n
slow-at_most s zero = omega arith
slow-at_most [] (suc n) = omega arith
slow-at_most (b ∷ s) (suc n) = omega arith

slow-some_left : (s : List ℕ) (n : ℕ) → 0 < n → 0 < length s → 0 < length (one_byte s n).0
slow-some_left s zero pos some_ = absurd (omega arith)
slow-some_left [] (suc n) pos some_ = absurd (omega arith)
slow-some_left (b ∷ s) (suc n) pos some_ = omega arith

abbrev slow_faithful : Faithful slow
slow_faithful = record {
  left = λ s. s;
  in_order = slow-in_order;
  at_most = slow-at_most;
  some_left = slow-some_left;
}

-- A codec that knows one kind of message.
abbrev totals : Message → List ℕ
totals (done n) = 1 ∷ n ∷ []
totals _ = 0 ∷ []

abbrev total_of : List ℕ → Option Message
total_of (suc k ∷ n ∷ []) = some (done n)
total_of _ = none

abbrev codec : Codec
codec = record {
  encode_header = λ header. [];
  decode_header = λ bytes. none;
  encode = totals;
  decode = total_of;
}

abbrev sent : List ℕ
sent = 0 ∷ 0 ∷ 0 ∷ 2 ∷ 1 ∷ 7 ∷ 0 ∷ 0 ∷ 0 ∷ 2 ∷ 1 ∷ 5 ∷ []

two_written : write_all codec [] (done 7 ∷ done 5 ∷ []) ≡ ok sent
unfolding write_all write_message write_frame to_bytes
two_written = refl

read_times-write_all_example :
    read_times slow codec 3 sent ≡ some (ok (some (done 7)) ∷ ok (some (done 5)) ∷ ok none ∷ [])
read_times-write_all_example =
    read_times-write_all codec slow slow_faithful (done 7 ∷ done 5 ∷ []) sent sent
      (refl, (refl, tt)) (omega arith, (omega arith, tt)) two_written refl

read_message-cut_example :
    (s' : List ℕ) × (read_message slow codec (big_endian 2 ++ 1 ∷ [])
      ≡ some (raise connection_error, s'))
read_message-cut_example =
    read_message-cut slow slow_faithful codec 2 (1 ∷ []) (big_endian 2 ++ 1 ∷ []) (omega arith)
      (omega arith) refl

read_exactly-ends_example :
    (r : Result (List ℕ) × List ℕ) × (read_exactly slow 3 (1 ∷ 2 ∷ []) ≡ some r)
read_exactly-ends_example = read_exactly-ends slow 3 (1 ∷ 2 ∷ [])
