-- ===== src/Worker/Disaggregated/Protocol/Reads.antt =====
-- Frames are read as they were written, in whatever pieces they come.
use agent_setup.Base.{
  ℕ, zero, suc, ◌+◌, ◌-◌, ◌≤◌, ◌<◌, ◌≡◌, refl, sym, ap, ◌∙◌, subst, false, inl, inr, Bool-cases,
  some, List, [], ◌∷◌, ◌++◌, append-nil, append_assoc, length, length-append, leb, arith,
}
use agent_setup.Base.Result.{ok}
use agent_setup.Utils.Frames.{frame, big_endian, from_bytes-big_endian}
use agent_setup.Worker.Disaggregated.Protocol.{
  Reader, read_loop, read_exactly, read_frame, then_payload,
}

-- A stream that still has the bytes `left` gives the next of them, at most as many as are asked for,
-- and none only when none are left or asked for.
pub record Faithful (reader : Reader) : Type 0 where
  pub left : reader.Source → List ℕ
  pub in_order :
      (s : reader.Source) (n : ℕ) → (reader.read s n).0 ++ left (reader.read s n).1 ≡ left s
  pub at_most : (s : reader.Source) (n : ℕ) → length (reader.read s n).0 ≤ n
  pub some_left :
      (s : reader.Source) (n : ℕ) → 0 < n → 0 < length (left s) → 0 < length (reader.read s n).0

-- Bytes that come first in two ways.
pub split_prefix :
    (xs l ys rest : List ℕ)
    → xs ++ l ≡ ys ++ rest
    → length xs ≤ length ys
    → (more : List ℕ) × (ys ≡ xs ++ more) × (l ≡ more ++ rest)
split_prefix [] l ys rest h le = (ys, refl, h)
split_prefix (x ∷ xs) l [] rest h le = absurd (omega arith)
split_prefix (x ∷ xs) l (y ∷ ys) rest h le =
    let e : x ≡ y = cc in
    let h' : xs ++ l ≡ ys ++ rest = cc in
    let (more, e1, e2) = split_prefix xs l ys rest h' (omega arith) in
    (more, ap (λ z. z ∷ ys) (sym e) ∙ ap (λ l. x ∷ l) e1, e2)

pub no_bytes : (xs : List ℕ) → length xs ≡ 0 → xs ≡ []
no_bytes [] h = refl
no_bytes (x ∷ xs) h = absurd (omega arith)

module _ (reader : Reader) (faithful : Faithful reader) where
  open reader use {Source, read}
  open faithful use {left, in_order, at_most, some_left}

  round-reads :
      (fuel n : ℕ) (buf : List ℕ) (s : Source) (p : List ℕ × Source) (out : List ℕ) (rest : List ℕ)
      → read s (n - length buf) ≡ p
      → leb n (length buf) ≡ false
      → 0 < length p.0
      → (s' : Source) × (read_loop reader fuel n (buf ++ p.0) p.1 ≡ some (ok out, s'))
        × (left s' ≡ rest)
      → (s' : Source) × (read_loop reader (suc fuel) n buf s ≡ some (ok out, s')) × (left s' ≡ rest)
  unfolding read_loop
  round-reads fuel n buf s ([], s1) out rest e short some_ later = absurd (omega arith)
  round-reads fuel n buf s (b ∷ bs, s1) out rest e short some_ later = rw (e, short) later

  -- As many bytes as are asked for, when they are there.
  read_loop-reads :
      (fuel n : ℕ) (buf more rest : List ℕ) (s : Source)
      → n < fuel + length buf
      → length buf + length more ≡ n
      → left s ≡ more ++ rest
      → (s' : Source) × (read_loop reader fuel n buf s ≡ some (ok (buf ++ more), s'))
        × (left s' ≡ rest)
  unfolding read_loop
  read_loop-reads zero n buf more rest s enough size h = absurd (omega arith)
  read_loop-reads (suc fuel) n buf more rest s enough size h =
      elim (Bool-cases (leb n (length buf))) [
        | inl full ↦
            let none_more = no_bytes more (ground arith) in
            rw (full, none_more)
              (
                s,
                ap (λ l. some (ok l, s)) (sym (append-nil buf)),
                h ∙ ap (λ l. l ++ rest) none_more,
              )
        | inr short ↦
            let p = read s (n - length buf) in
            let size' : n - length buf ≡ length more = omega arith in
            let long : 0 < n - length buf = ground arith in
            let total = ap length h ∙ length-append more rest in
            let nonempty = some_left s (n - length buf) long (omega arith) in
            let (more', e1, e2) =
              split_prefix p.0 (left p.1) more rest (in_order s (n - length buf) ∙ h)
                (let le = at_most s (n - length buf) in omega arith) in
            let sizes = ap length e1 ∙ length-append p.0 more' in
            let grown = length-append buf p.0 in
            let later =
              read_loop-reads fuel n (buf ++ p.0) more' rest p.1 (omega arith) (omega arith) e2 in
            let out : (buf ++ p.0) ++ more' ≡ buf ++ more =
              append_assoc buf p.0 more' ∙ ap (λ l. buf ++ l) (sym e1) in
            round-reads fuel n buf s p (buf ++ more) rest refl short nonempty (
              subst
                (λ o.
                  (s' : Source) × (read_loop reader fuel n (buf ++ p.0) p.1 ≡ some (ok o, s'))
                  × (left s' ≡ rest))
                out later)
      ]

  pub read_exactly-reads :
      (more rest : List ℕ) (s : Source)
      → left s ≡ more ++ rest
      → (s' : Source) × (read_exactly reader (length more) s ≡ some (ok more, s'))
        × (left s' ≡ rest)
  unfolding read_exactly
  read_exactly-reads more rest s h =
      read_loop-reads (suc (length more)) (length more) [] more rest s (omega arith) (omega arith) h

  pub read_frame-reads :
      (payload rest : List ℕ) (s : Source)
      → length payload < 4294967296
      → left s ≡ frame payload ++ rest
      → (s' : Source) × (read_frame reader s ≡ some (ok payload, s')) × (left s' ≡ rest)
  unfolding read_frame
  read_frame-reads payload rest s fits h =
      let (s1, e1, h1) = read_exactly-reads (big_endian (length payload)) (payload ++ rest) s h in
      let (s2, e2, h2) = read_exactly-reads payload rest s1 h1 in
      (s2, rw (e1, from_bytes-big_endian (length payload) fits, e2), h2)

  -- At the end of the stream there is no frame.
  pub read_frame-end :
      (s : Source) → left s ≡ [] → (s' : Source) × (read_frame reader s ≡ some (ok [], s'))
  unfolding read_frame read_exactly read_loop
  read_frame-end s h = ended (read s 4) refl
    where
      clash : {b : ℕ} {l : List ℕ} → b ∷ l ≡ [] → ⊥
      clash e = cc

      ended :
          (p : List ℕ × Source)
          → read s 4 ≡ p
          → (s' : Source) × (then_payload reader (read_exactly reader 4 s) ≡ some (ok [], s'))
      ended ([], s') e = (s', rw e)
      ended (b ∷ bs, s') e =
          absurd (clash (sym (ap (λ (p : List ℕ × Source). p.0 ++ left p.1) e) ∙ in_order s 4 ∙ h))
