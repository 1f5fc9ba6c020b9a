-- ===== src/Election/Agreement.antt =====
-- Nodes that hold the same candidates choose the same master.
use agent_setup.Base.{
  ◌≡◌, refl, subst, false, arith, Bool-cases, inl, inr, List, [], ◌∷◌, if◌then◌else◌,
}
use mathlib.Core.List.{Memᴰ}
use agent_setup.Base.Result.{ok}
use agent_setup.Election.{ElectionMessage, lt, max_from, elected}
use agent_setup.Election.Order.{lt_trans, lt_irrefl, lt_total, lt-le_trans, SameRank}

-- `r` is one of the messages, and below none of them.
pub record IsGreatest (r : ElectionMessage) (ms : List ElectionMessage) : Type 0 where
  pub candidate : Memᴰ r ms
  pub greatest : (m : ElectionMessage) → Memᴰ m ms → lt r m ≡ false

IsGreatest-cons :
    (best m r : ElectionMessage) (ms : List ElectionMessage)
    → IsGreatest r ((if lt best m then m else best) ∷ ms)
    → IsGreatest r (best ∷ m ∷ ms)
IsGreatest-cons best m r ms g = record { candidate = place g.candidate; greatest = bound }
  where
    place : Memᴰ r ((if lt best m then m else best) ∷ ms) → Memᴰ r (best ∷ m ∷ ms)
    place (Memᴰ.head e) = elim (Bool-cases (lt best m)) [
      | inl up ↦ Memᴰ.tail (Memᴰ.head (rw up at e))
      | inr keep ↦ Memᴰ.head (rw keep at e)
    ]
    place (Memᴰ.tail k) = Memᴰ.tail (Memᴰ.tail k)

    top : lt r (if lt best m then m else best) ≡ false
    top = g.greatest _ (Memᴰ.head refl)

    bound : (k : ElectionMessage) → Memᴰ k (best ∷ m ∷ ms) → lt r k ≡ false
    bound k (Memᴰ.head e) = rw e (ground (arith, top, lt_trans r best m))
    bound k (Memᴰ.tail (Memᴰ.head e)) = rw e (ground (arith, top, lt-le_trans r best m))
    bound k (Memᴰ.tail (Memᴰ.tail n)) = g.greatest k (Memᴰ.tail n)

max_from-IsGreatest :
    (best : ElectionMessage) (ms : List ElectionMessage) → IsGreatest (max_from best ms) (best ∷ ms)
unfolding max_from
max_from-IsGreatest best [] = record { candidate = Memᴰ.head refl; greatest = λ m n. only m n }
  where
    only : (m : ElectionMessage) → Memᴰ m (best ∷ []) → lt best m ≡ false
    only m (Memᴰ.head e) = rw e (lt_irrefl best)
    only m (Memᴰ.tail n) = elim n [ ]
max_from-IsGreatest best (m ∷ ms) =
    IsGreatest-cons best m _ ms (max_from-IsGreatest (if lt best m then m else best) ms)

-- The elected message is a candidate, and no candidate is greater.
pub elected-IsGreatest :
    (ms : List ElectionMessage) (r : ElectionMessage) → elected ms ≡ ok r → IsGreatest r ms
unfolding elected
elected-IsGreatest [] r h = absurd (ground arith)
elected-IsGreatest (m ∷ ms) r h =
    let e : max_from m ms ≡ r = ground arith in
    subst (λ q. IsGreatest q (m ∷ ms)) e (max_from-IsGreatest m ms)

-- Two collections of messages hold the same messages, in whatever order and however often.
pub record SameMessages (xs ys : List ElectionMessage) : Type 0 where
  pub to : (m : ElectionMessage) → Memᴰ m xs → Memᴰ m ys
  pub from : (m : ElectionMessage) → Memᴰ m ys → Memᴰ m xs

-- Two nodes that have received the same candidates, in any order and however often, elect the same
-- master with the same clock, seniority and number of commands seen.
pub agreement :
    (xs ys : List ElectionMessage) (a b : ElectionMessage)
    → SameMessages xs ys
    → elected xs ≡ ok a
    → elected ys ≡ ok b
    → SameRank a b
agreement xs ys a b same ha hb =
    let ga = elected-IsGreatest xs a ha in
    let gb = elected-IsGreatest ys b hb in
    lt_total a b (ga.greatest b (same.from b gb.candidate)) (gb.greatest a (same.to a ga.candidate))
