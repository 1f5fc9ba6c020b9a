-- ===== src/Worker/Disaggregated/Protocol/Cut.antt =====
-- A stream that ends in the middle of a frame.
use agent_setup.Base.{
  ℕ, zero, suc, ◌+◌, ◌-◌, ◌<◌, ◌≡◌, refl, sym, ap, ◌∙◌, subst, false, inl, inr, Bool-cases, none,
  some, Option, List, [], ◌∷◌, ◌++◌, append-nil, append_assoc, length, length-append, leb,
  if◌then◌else◌, arith,
}
use agent_setup.Base.Result.{Result, ok, raise, connection_error}
use agent_setup.Utils.Frames.{big_endian, from_bytes-big_endian}
use agent_setup.Worker.Disaggregated.Protocol.{
  Codec, Reader, is_nil, read_loop, read_exactly, read_frame, read_message,
}
use agent_setup.Worker.Disaggregated.Protocol.Reads.{
  Faithful, read_exactly-reads, split_prefix, no_bytes,
}

abbrev cut_off : List ℕ → Result (List ℕ)
cut_off bytes = if is_nil bytes then ok [] else raise connection_error

module _ (reader : Reader) (faithful : Faithful reader) where
  open reader use {Source, read}
  open faithful use {left, in_order, at_most, some_left}

  abbrev CutOff : Source → Option (Result (List ℕ) × Source) → List ℕ → Type 0
  CutOff s o bytes = (s' : Source) × (o ≡ some (cut_off bytes, s'))

  round-cut :
      (fuel n : ℕ) (buf : List ℕ) (s : Source) (p : List ℕ × Source) (bytes : List ℕ)
      → read s (n - length buf) ≡ p
      → leb n (length buf) ≡ false
      → (p.0 ≡ [] → bytes ≡ buf)
      → (0 < length p.0 → CutOff s (read_loop reader fuel n (buf ++ p.0) p.1) bytes)
      → CutOff s (read_loop reader (suc fuel) n buf s) bytes
  unfolding read_loop
  round-cut fuel n buf s ([], s1) bytes e short last later = rw (e, short, last refl) (s1, refl)
  round-cut fuel n buf s (b ∷ bs, s1) bytes e short last later = rw (e, short) (later (omega arith))

  read_loop-cut :
      (fuel n : ℕ) (buf more : List ℕ) (s : Source)
      → n < fuel + length buf
      → length buf + length more < n
      → left s ≡ more
      → CutOff s (read_loop reader fuel n buf s) (buf ++ more)
  unfolding read_loop
  read_loop-cut zero n buf more s enough size h = absurd (omega arith)
  read_loop-cut (suc fuel) n buf more s enough size h =
      let p = read s (n - length buf) in
      let short : leb n (length buf) ≡ false = ground arith in
      let order = in_order s (n - length buf) ∙ h in
      let (more', e1, e2) = split_prefix p.0 (left p.1) more [] (order ∙ sym (append-nil more)) (
        let all = ap length order ∙ refl in
        let sizes = length-append p.0 (left p.1) in omega arith) in
      let sizes = ap length e1 ∙ length-append p.0 more' in
      let grown = length-append buf p.0 in
      let none_left : p.0 ≡ [] → length more ≡ 0 = λ nothing.
        elim (Bool-cases (leb 1 (length more))) [
          | inl some_ ↦
              let got =
                some_left s (n - length buf) (omega arith) (let e = ap length h in ground arith) in
              let e = ap length nothing in absurd (omega arith)
          | inr gone ↦ ground arith
        ] in
      round-cut fuel n buf s p (buf ++ more) refl short
        (λ nothing. ap (λ l. buf ++ l) (no_bytes more (none_left nothing)) ∙ append-nil buf)
        (λ nonempty.
          let later =
            read_loop-cut fuel n (buf ++ p.0) more' p.1 (omega arith) (omega arith)
              (e2 ∙ append-nil more') in
          subst (λ l. CutOff s (read_loop reader fuel n (buf ++ p.0) p.1) l)
            (append_assoc buf p.0 more' ∙ ap (λ l. buf ++ l) (sym e1)) later)

  -- If a stream ends before the payload of a frame does, after some bytes of it, reading a message
  -- raises a connection error; when it ends right after the length, that reads as the end of the
  -- messages.
  pub read_message-cut :
      (codec : Codec) (n : ℕ) (part : List ℕ) (s : Source)
      → n < 4294967296
      → length part < n
      → left s ≡ big_endian n ++ part
      → (s' : Source) × (read_message reader codec s
          ≡ some (if is_nil part then ok none else raise connection_error, s'))
  unfolding read_message read_frame read_exactly
  read_message-cut codec n [] s small short h =
      let (s1, e1, h1) = read_exactly-reads reader faithful (big_endian n) [] s h in
      let (s2, e2) = read_loop-cut (suc n) n [] [] s1 (omega arith) (omega arith) h1 in
      (s2, rw (e1, from_bytes-big_endian n small, e2))
  read_message-cut codec n (b ∷ bs) s small short h =
      let (s1, e1, h1) = read_exactly-reads reader faithful (big_endian n) (b ∷ bs) s h in
      let (s2, e2) = read_loop-cut (suc n) n [] (b ∷ bs) s1 (omega arith) (omega arith) h1 in
      (s2, rw (e1, from_bytes-big_endian n small, e2))
