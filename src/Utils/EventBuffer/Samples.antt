-- ===== src/Utils/EventBuffer/Samples.antt =====
-- The theorems on the buffers at concrete inputs.
use mathlib.Core.List.{Memᴰ}
use agent_setup.Base.{
  ℕ, zero, suc, ◌+◌, ◌≤◌, ◌<◌, ◌≡◌, ◌≢◌, ◌↔◌, refl, some, List, [], ◌∷◌, ◌++◌, arith, String,
}
use agent_setup.Base.Eq.{number_eq, text_eq}
use agent_setup.Base.Dict.{get, insert, without}
use agent_setup.Base.Result.{ok, raise, assertion_error}
use agent_setup.Utils.EventBuffer.{
  OrderedBuffer, MultiSourceBuffer, empty, ingest, drain_loop, drain_indexed, buffer_of,
  multi_ingest,
}
use agent_setup.Utils.EventBuffer.Drain.{segment, Holds, Drained, drain_indexed-Drained}
use agent_setup.Utils.EventBuffer.Stream.{Call, arrive, release, run, FromStream}
use agent_setup.Utils.EventBuffer.Resequence.{run_in_order, run_complete, ingest_conflict}
use agent_setup.Utils.EventBuffer.Sources.{ingest_all, multi_ingest_all, sent_by, sources_apart}

abbrev stream : ℕ → ℕ
stream i = i + 10

-- The second event first, then the first, then the second once more.
abbrev shuffled : List (Call ℕ)
shuffled = arrive 1 11 ∷ release ∷ arrive 0 10 ∷ arrive 1 11 ∷ []

shuffled-FromStream : FromStream stream shuffled
shuffled-FromStream i t (Memᴰ.head e) = ground arith
shuffled-FromStream i t (Memᴰ.tail (Memᴰ.head e)) = absurd (ground arith)
shuffled-FromStream i t (Memᴰ.tail (Memᴰ.tail (Memᴰ.head e))) = ground arith
shuffled-FromStream i t (Memᴰ.tail (Memᴰ.tail (Memᴰ.tail (Memᴰ.head e)))) = ground arith
shuffled-FromStream i t (Memᴰ.tail (Memᴰ.tail (Memᴰ.tail (Memᴰ.tail m)))) = elim m [ ]

shuffled-arrived : (k : ℕ) → k < 2 → Memᴰ (arrive k (stream k)) shuffled
shuffled-arrived zero h = Memᴰ.tail (Memᴰ.tail (Memᴰ.head refl))
shuffled-arrived (suc zero) h = Memᴰ.head refl
shuffled-arrived (suc (suc k)) h = absurd (omega arith)

shuffled_runs :
    run empty [] (shuffled ++ release ∷ [])
    ≡ ok ((0, 10) ∷ (1, 11) ∷ [], record { store = []; next_idx_to_release = 2 })
unfolding run ingest drain_indexed drain_loop get insert without
shuffled_runs = refl

run_in_order_example :
    (b : OrderedBuffer ℕ) × (run empty [] shuffled ≡ ok (segment stream 0 b.next_idx_to_release, b))
run_in_order_example = run_in_order stream shuffled shuffled-FromStream

run_complete_example :
    (b : OrderedBuffer ℕ) × (run empty [] (shuffled ++ release ∷ [])
      ≡ ok (segment stream 0 b.next_idx_to_release, b))
    × (2 ≤ b.next_idx_to_release)
run_complete_example = run_complete stream shuffled 2 shuffled-FromStream shuffled-arrived

abbrev waiting_three : OrderedBuffer ℕ
waiting_three = record { store = (3, 13) ∷ []; next_idx_to_release = 1 }

ingest_conflict_example :
    (ingest waiting_three 3 14 ≡ raise assertion_error)
    ↔ ((1 ≤ 3) × ((old : ℕ) × (get waiting_three.store 3 ≡ some old) × (old ≢ 14)))
ingest_conflict_example = ingest_conflict waiting_three 3 14

abbrev two_sources : List (String × ℕ × ℕ)
two_sources = ("a", 0, 10) ∷ ("b", 0, 20) ∷ ("a", 1, 11) ∷ []

abbrev two_buffers : MultiSourceBuffer String ℕ
two_buffers =
    ("a", record { store = (0, 10) ∷ (1, 11) ∷ []; next_idx_to_release = 0 })
    ∷ ("b", record { store = (0, 20) ∷ []; next_idx_to_release = 0 })
    ∷ []

two_sources_ingested : multi_ingest_all [] two_sources ≡ ok two_buffers
unfolding multi_ingest_all multi_ingest ingest get insert
two_sources_ingested = refl

sources_apart_example :
    ingest_all (buffer_of {S = String} {T = ℕ} [] "a") (sent_by "a" two_sources)
    ≡ ok (buffer_of two_buffers "a")
sources_apart_example = sources_apart "a" two_sources [] two_buffers two_sources_ingested

waiting_three-Holds : Holds (λ i. i + 10) waiting_three.store 1
unfolding get
waiting_three-Holds = record { event = λ k t h. ground arith }

drain_indexed-Drained_example :
    Drained (λ i. i + 10) waiting_three.store 1 [] (drain_indexed waiting_three)
drain_indexed-Drained_example =
    drain_indexed-Drained (λ i. i + 10) waiting_three waiting_three-Holds
