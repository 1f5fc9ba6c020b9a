-- ===== src/Master/InstanceChoice/Least.antt =====
-- Which instance gets a command's task.
use mathlib.Core.List.{Memᴰ}
use agent_setup.Base.{
  ℕ, suc, keep_if, ◌≢◌, ◌≤◌, ◌≡◌, refl, sym, ap, ◌∙◌, subst, Bool, true, false, some, List, [], ◌∷◌,
  ◌⊎◌, inl, inr, Bool-cases, false≢true, ltb, if◌then◌else◌, arith,
}
use agent_setup.Base.Eq.{◌==◌, text_eq, ==_eq, ==_refl}
use agent_setup.Base.Seq.{sort_down, place}
use agent_setup.Base.Dict.{Dict, get, insert, keys, get-insert}
use agent_setup.Base.Result.{ok, ok-injective}
use agent_setup.Types.Workers.{Instance, InstanceId}
use agent_setup.Types.Tasks.{Task, TaskStatus, in_flight, in_flight-cases}
use agent_setup.Master.InstanceChoice.{
  count_in_flight, task_counts, count_of, by_count, first_id, least_loaded,
}

keys-get : (d : Dict InstanceId ℕ) (j : InstanceId) → Memᴰ j (keys d) → (n : ℕ) × (get d j ≡ some n)
unfolding keys get
keys-get [] j m = elim m [ ]
keys-get ((k, n) ∷ d) j m = elim (Bool-cases (k == j)) [
  | inl same ↦ (n, rw same)
  | inr other ↦ let (n', e) = keys-get d j (later m other) in (n', rw other e)
]
  where
    later : Memᴰ j (k ∷ keys d) → (k == j) ≡ false → Memᴰ j (keys d)
    later (Memᴰ.head e) other = absurd (clash (sym other ∙ ap (λ x. k == x) e ∙ ==_refl k))
      where
        clash : false ≡ true → ⊥
        clash q = cc
    later (Memᴰ.tail k') other = k'

get-keys : (d : Dict InstanceId ℕ) (j : InstanceId) (n : ℕ) → get d j ≡ some n → Memᴰ j (keys d)
unfolding keys get
get-keys [] j n h = absurd (cc)
get-keys ((k, n') ∷ d) j n h = elim (Bool-cases (k == j)) [
  | inl same ↦ Memᴰ.head (sym (==_eq k j same))
  | inr other ↦ Memᴰ.tail (get-keys d j n (rw other at h))
]

-- The instance has that many tasks in the list that are pending or running.
pub data InFlight (i : InstanceId) : List Task → ℕ → Type 0 where
  no_tasks : InFlight i [] 0
  one_more :
      {t : Task} {tasks : List Task} {n : ℕ}
      → t.instance_id ≡ i
      → (t.task_status ≡ TaskStatus.pending) ⊎ (t.task_status ≡ TaskStatus.running)
      → InFlight i tasks n
      → InFlight i (t ∷ tasks) (suc n)
  of_other :
      {t : Task} {tasks : List Task} {n : ℕ}
      → t.instance_id ≢ i
      → InFlight i tasks n
      → InFlight i (t ∷ tasks) n
  over :
      {t : Task} {tasks : List Task} {n : ℕ}
      → t.task_status ≢ TaskStatus.pending
      → t.task_status ≢ TaskStatus.running
      → InFlight i tasks n
      → InFlight i (t ∷ tasks) n

flies : (s : TaskStatus) → (s ≡ TaskStatus.pending) ⊎ (s ≡ TaskStatus.running) → in_flight s ≡ true
flies s (inl e) = rw e
flies s (inr e) = rw e

rests : (s : TaskStatus) → s ≢ TaskStatus.pending → s ≢ TaskStatus.running → in_flight s ≡ false
rests TaskStatus.pending h k = absurd (h refl)
rests TaskStatus.running h k = absurd (k refl)
rests _ h k = refl

module _ (i : InstanceId) where
  count_in_flight-InFlight : (tasks : List Task) → InFlight i tasks (count_in_flight tasks i)
  unfolding count_in_flight keep_if
  count_in_flight-InFlight [] = no_tasks
  count_in_flight-InFlight (t ∷ tasks) =
      let rest = count_in_flight-InFlight tasks in
      elim (Bool-cases (t.instance_id == i)) [
        | inr other ↦ rw other (of_other (λ e. apart other e) rest)
        | inl own ↦ elim (Bool-cases (in_flight t.task_status)) [
          | inl flying ↦
              rw (own, flying)
                (one_more (==_eq t.instance_id i own) (in_flight-cases t.task_status flying) rest)
          | inr done ↦
              rw (own, done) (over (λ e. stays done (inl e)) (λ e. stays done (inr e)) rest)
        ]
      ]
    where
      apart : (t.instance_id == i) ≡ false → t.instance_id ≡ i → ⊥
      apart other e = false≢true (sym other ∙ ap (λ x. x == i) e ∙ ==_refl i)

      stays :
          in_flight t.task_status ≡ false
          → (t.task_status ≡ TaskStatus.pending) ⊎ (t.task_status ≡ TaskStatus.running)
          → ⊥
      stays done e = false≢true (sym done ∙ flies t.task_status e)

  InFlight-count : (tasks : List Task) (n : ℕ) → InFlight i tasks n → n ≡ count_in_flight tasks i
  unfolding count_in_flight keep_if
  InFlight-count [] n no_tasks = refl
  InFlight-count (t ∷ tasks) n (one_more own flying held) =
      let flying' = flies t.task_status flying in
      let same = ap (λ x. x == i) own ∙ ==_refl i in
      rw (same, flying') (ap suc (InFlight-count tasks _ held))
  InFlight-count (t ∷ tasks) n (of_other apart held) = elim (Bool-cases (t.instance_id == i)) [
    | inl same ↦ absurd (apart (==_eq t.instance_id i same))
    | inr other ↦ rw other (InFlight-count tasks n held)
  ]
  InFlight-count (t ∷ tasks) n (over p q held) =
      let done = rests t.task_status p q in
      elim (Bool-cases (t.instance_id == i)) [
        | inl same ↦ rw (same, done) (InFlight-count tasks n held)
        | inr other ↦ rw other (InFlight-count tasks n held)
      ]

module _ (count : InstanceId → ℕ) where
  abbrev below : InstanceId → InstanceId → Bool
  below a b = ltb (count b) (count a)

  -- The first of a sorted list is in the list and has the least count.
  abbrev Least : InstanceId → List InstanceId → Type 0
  Least i ids = Memᴰ i ids × ((j : InstanceId) → Memᴰ j ids → count i ≤ count j)

  abbrev First : List InstanceId → List InstanceId → Type 0
  First [] ids = ids ≡ []
  First (i ∷ rest) ids = Least i ids

  Least-cons :
      (x i : InstanceId) (ids : List InstanceId)
      → Least i ids
      → (ltb (count i) (count x) ≡ true → Least i (x ∷ ids))
        × (ltb (count i) (count x) ≡ false → Least x (x ∷ ids))
  Least-cons x i ids (m, least) = (
    λ lt. (Memᴰ.tail m, λ j k. at i j k (ground arith) least),
    λ ge. (
      Memᴰ.head refl,
      λ j k. at x j k (omega arith) (λ j' k'. let le = least j' k' in ground arith),
    ),
  )
    where
      at :
          (a j : InstanceId)
          → Memᴰ j (x ∷ ids)
          → count a ≤ count x
          → ((j' : InstanceId) → Memᴰ j' ids → count a ≤ count j')
          → count a ≤ count j
      at a j (Memᴰ.head e) le rest = rw e le
      at a j (Memᴰ.tail k) le rest = rest j k

  place-First :
      (x : InstanceId) (sorted ids : List InstanceId)
      → First sorted ids
      → First (place below x sorted) (x ∷ ids)
  unfolding place
  place-First x [] ids e = rw e (Memᴰ.head refl, λ j m. only j m)
    where
      only : (j : InstanceId) → Memᴰ j (x ∷ []) → count x ≤ count j
      only j (Memᴰ.head p) = rw p (omega arith)
      only j (Memᴰ.tail k) = elim k [ ]
  place-First x (i ∷ rest) ids least = elim (Bool-cases (ltb (count i) (count x))) [
    | inl less ↦ rw less ((Least-cons x i ids least).0 less)
    | inr more ↦ rw more ((Least-cons x i ids least).1 more)
  ]

  by_count-First : (ids : List InstanceId) → First (by_count count ids) ids
  unfolding by_count sort_down
  by_count-First [] = refl
  by_count-First (x ∷ ids) = place-First x (sort_down below ids) ids (by_count-First ids)

  remaining_ok :
      (sorted ids : List InstanceId) (i : InstanceId)
      → First sorted ids
      → first_id sorted ≡ ok i
      → Least i ids
  remaining_ok [] ids i f h = absurd (cc)
  remaining_ok (k ∷ rest) ids i f h = subst (λ x. Least x ids) (ok-injective k i h) f

module _ (suits : Instance → Bool) (tasks : List Task) where
  -- An instance of the list that suits, under an identifier.
  abbrev pub Suits : List Instance → InstanceId → Type 0
  Suits instances i = (x : Instance) × Memᴰ x instances × (suits x ≡ true) × (x.instance_id ≡ i)

  -- The counts after the loop are those before, and those of what suits.
  abbrev Counted : Dict InstanceId ℕ → List Instance → Dict InstanceId ℕ → Type 0
  Counted before instances after =
      ((j : InstanceId) (n : ℕ)
        → get after j ≡ some n
        → (get before j ≡ some n) ⊎ ((n ≡ count_in_flight tasks j) × Suits instances j))
      × ((j : InstanceId)
          → get before j ≡ some (count_in_flight tasks j)
          → get after j ≡ some (count_in_flight tasks j))
      × ((j : InstanceId) → Suits instances j → get after j ≡ some (count_in_flight tasks j))

  Suits-tail : (x : Instance) (xs : List Instance) (j : InstanceId) → Suits xs j → Suits (x ∷ xs) j
  Suits-tail x xs j (y, m, s, e) = (y, Memᴰ.tail m, s, e)

  Counted-good :
      (x : Instance) (instances : List Instance) (counts after : Dict InstanceId ℕ)
      → suits x ≡ true
      → Counted (insert counts x.instance_id (count_in_flight tasks x.instance_id)) instances after
      → Counted counts (x ∷ instances) after
  Counted-good x instances counts after good (entry, kept, all) =
      (λ j n h. entry_of j n (entry j n h), λ j h. kept j (kept_in j h), λ j s. all_of j s)
    where
      here : Dict InstanceId ℕ
      here = insert counts x.instance_id (count_in_flight tasks x.instance_id)

      at :
          (j : InstanceId)
          → get here j ≡ (
              if x.instance_id == j
              then some (count_in_flight tasks x.instance_id)
              else get counts j)
      at j = get-insert counts x.instance_id j (count_in_flight tasks x.instance_id)

      counted : (j : InstanceId) → x.instance_id ≡ j → get here j ≡ some (count_in_flight tasks j)
      counted j e =
          at j
          ∙ ap (λ b. if b then some (count_in_flight tasks x.instance_id) else get counts j)
              (ap (λ k. k == j) e ∙ ==_refl j)
          ∙ ap (λ k. some (count_in_flight tasks k)) e

      entry_of :
          (j : InstanceId) (n : ℕ)
          → (get here j ≡ some n) ⊎ ((n ≡ count_in_flight tasks j) × Suits instances j)
          → (get counts j ≡ some n) ⊎ ((n ≡ count_in_flight tasks j) × Suits (x ∷ instances) j)
      entry_of j n (inr (e, s)) = inr (e, Suits-tail x instances j s)
      entry_of j n (inl h) = elim (Bool-cases (x.instance_id == j)) [
        | inl same ↦
            let e = ==_eq x.instance_id j same in
            let e' : some n ≡ some (count_in_flight tasks j) = sym h ∙ counted j e in
            inr (cc, (x, Memᴰ.head refl, good, e))
        | inr other ↦ inl (sym (at j ∙ (rw other)) ∙ h)
      ]

      kept_in :
          (j : InstanceId)
          → get counts j ≡ some (count_in_flight tasks j)
          → get here j ≡ some (count_in_flight tasks j)
      kept_in j h = elim (Bool-cases (x.instance_id == j)) [
        | inl same ↦ counted j (==_eq x.instance_id j same)
        | inr other ↦ at j ∙ (rw other h)
      ]

      all_of :
          (j : InstanceId) → Suits (x ∷ instances) j → get after j ≡ some (count_in_flight tasks j)
      all_of j (y, Memᴰ.tail m, s, e) = all j (y, m, s, e)
      all_of j (y, Memᴰ.head p, s, e) =
          kept j (counted j (ap (λ (z : Instance). z.instance_id) (sym p) ∙ e))

  Counted-bad :
      (x : Instance) (instances : List Instance) (counts after : Dict InstanceId ℕ)
      → suits x ≡ false
      → Counted counts instances after
      → Counted counts (x ∷ instances) after
  Counted-bad x instances counts after bad (entry, kept, all) =
      (λ j n h. entry_of j n (entry j n h), kept, λ j s. all_of j s)
    where
      entry_of :
          (j : InstanceId) (n : ℕ)
          → (get counts j ≡ some n) ⊎ ((n ≡ count_in_flight tasks j) × Suits instances j)
          → (get counts j ≡ some n) ⊎ ((n ≡ count_in_flight tasks j) × Suits (x ∷ instances) j)
      entry_of j n (inl h) = inl h
      entry_of j n (inr (e, s)) = inr (e, Suits-tail x instances j s)

      all_of :
          (j : InstanceId) → Suits (x ∷ instances) j → get after j ≡ some (count_in_flight tasks j)
      all_of j (y, Memᴰ.tail m, s, e) = all j (y, m, s, e)
      all_of j (y, Memᴰ.head p, s, e) = absurd (false≢true (sym bad ∙ ap suits (sym p) ∙ s))

  task_counts-Counted :
      (instances : List Instance) (counts : Dict InstanceId ℕ)
      → Counted counts instances (task_counts suits tasks instances counts)
  unfolding task_counts
  task_counts-Counted [] counts = (λ j n h. inl h, λ j h. h, λ j s. elim s.1 [ ])
  task_counts-Counted (x ∷ instances) counts = elim (Bool-cases (suits x)) [
    | inl good ↦ rw good (
        Counted-good x instances counts _ good (
          task_counts-Counted instances
            (insert counts x.instance_id (count_in_flight tasks x.instance_id))))
    | inr bad ↦ rw bad (Counted-bad x instances counts _ bad (task_counts-Counted instances counts))
  ]

  not_before :
      (i : InstanceId) (n : ℕ) (instances : List Instance)
      → (get [] i ≡ some n) ⊎ ((n ≡ count_in_flight tasks i) × Suits instances i)
      → (n ≡ count_in_flight tasks i) × Suits instances i
  unfolding get
  not_before i n instances (inl q) = absurd (cc)
  not_before i n instances (inr q) = q

  counts_le :
      (counts : Dict InstanceId ℕ) (i j : InstanceId) {m n : ℕ}
      → get counts i ≡ some m
      → get counts j ≡ some n
      → count_of counts i ≤ count_of counts j
      → m ≤ n
  counts_le counts i j p q le = ground arith

  -- The instance that is chosen suits, and no instance that suits has fewer tasks that are pending
  -- or running.
  pub least_loaded-Least :
      (instances : List Instance) (i : InstanceId)
      → least_loaded suits tasks instances ≡ ok i
      → Suits instances i
        × ((n : ℕ) × InFlight i tasks n
            × ((j : InstanceId) (m : ℕ) → Suits instances j → InFlight j tasks m → n ≤ m))
  unfolding least_loaded get
  least_loaded-Least instances i h =
      let counts = task_counts suits tasks instances [] in
      let (entry, kept, all) = task_counts-Counted instances [] in
      let (m, least) =
        remaining_ok (count_of counts) _ (keys counts) i
          (by_count-First (count_of counts) (keys counts)) h in
      let (n, at) = keys-get counts i m in
      let (n_is, s) = not_before i n instances (entry i n at) in
      (
        s,
        (
          count_in_flight tasks i,
          count_in_flight-InFlight i tasks,
          λ j k t held.
              let at_j = all j t in
              let le = least j (get-keys counts j _ at_j) in
              rw (InFlight-count j tasks k held) (counts_le counts i j (all i s) at_j le),
        ),
      )
