-- ===== src/Master/ImageStore/Expiry.antt =====
-- How long an image can be got.
use agent_setup.Base.{
  ℕ, ◌≤◌, ◌<◌, ◌≡◌, refl, sym, ap, ◌∙◌, subst, true, false, false≢true, Option, none, some, List,
  [], ◌∷◌, ◌++◌, String, map, ◌⊎◌, inl, inr, Bool-cases, ltb, if◌then◌else◌, All, All-Mem,
  All-append, arith,
}
use agent_setup.Base.Eq.{◌==◌, text_eq, ==_refl, ==_eq}
use agent_setup.Base.Dict.{
  Dict, get, insert, without, get-insert, get-without, get-Mem, get-append, insert-append,
}
use agent_setup.Base.Result.{Result, ok, raise, ◌>>=◌, chain, ok-injective}
use agent_setup.Master.ImageStore.{
  StoredImage, ImageStore, Paths, store_image, remove_image, unexpired, get_image, expired_ids,
  remove_all, cleanup_expired, extension_of, stored_under,
}

-- What is done with a store, each with its time.
pub data Action : Type 0 where
  stores : ℕ → String → List ℕ → String → Action
  gets : ℕ → String → Action
  cleans : ℕ → Action

abbrev pub time_of : Action → ℕ
time_of (stores now id bytes content_type) = now
time_of (gets now id) = now
time_of (cleans now) = now

-- An exception leaves the store as it was.
abbrev pub or_same : ImageStore → Result (StoredImage × ImageStore) → ImageStore
or_same s (ok (stored, s')) = s'
or_same s (raise e) = s

unfoldable pub act : Paths → ImageStore → Action → ImageStore
act paths s (stores now id bytes content_type) =
    or_same s (store_image paths s id now bytes content_type)
act paths s (gets now id) = (get_image s id now).1
act paths s (cleans now) = (cleanup_expired s now).1

unfoldable pub act_all : Paths → ImageStore → List Action → ImageStore
act_all paths s [] = s
act_all paths s (a ∷ actions) = act_all paths (act paths s a) actions

-- Times that never fall, from one on.
abbrev pub Rising : ℕ → List ℕ → Type 0
Rising low [] = Unit {0}
Rising low (t ∷ ts) = (low ≤ t) × Rising t ts

-- The action does not store another image under the identifier.
abbrev pub Apart : String → Action → Type 0
Apart id (stores now other bytes content_type) = (other == id) ≡ false
Apart id _ = Unit {0}

module _ (id : String) (v : StoredImage) where
  abbrev IsIt : String × StoredImage → Type 0
  IsIt p = (p.0 == id) ≡ true → p.1 ≡ v

  -- The image is there, or it has expired.
  record Held (now : ℕ) (s : ImageStore) : Type 0 where
    pub only : All IsIt s.images
    pub here : (get s.images id ≡ some v) ⊎ ((get s.images id ≡ none) × (v.expires_at < now))

  All-without : (d : Dict String StoredImage) (k : String) → All IsIt d → All IsIt (without d k)
  unfolding without
  All-without [] k all = tt
  All-without ((j, w) ∷ d) k all = elim (Bool-cases (j == k)) [
    | inl same ↦ rw same (All-without d k all.1)
    | inr apart ↦ rw apart (all.0, All-without d k all.1)
  ]

  All-insert :
      (d : Dict String StoredImage) (k : String) (w : StoredImage)
      → (k == id) ≡ false
      → All IsIt d
      → All IsIt (insert d k w)
  unfolding insert
  All-insert [] k w apart all = ((λ p. absurd (false≢true (sym apart ∙ p))), tt)
  All-insert ((j, u) ∷ d) k w apart all = elim (Bool-cases (j == k)) [
    | inl same ↦ rw same (
      (λ p. absurd (false≢true (sym apart ∙ ap (λ x. x == id) (sym (==_eq j k same)) ∙ p))),
      all.1,
    )
    | inr other ↦ rw other (all.0, All-insert d k w apart all.1)
  ]

  Held-remove :
      (now : ℕ) (s : ImageStore) (k : String)
      → ((k == id) ≡ true → v.expires_at < now)
      → Held now s
      → Held now (remove_image s k)
  unfolding remove_image
  Held-remove now s k old h = record {
    only = All-without s.images k h.only;
    here = elim (Bool-cases (k == id)) [
      | inl same ↦ inr (get-without s.images k id ∙ (rw same), old same)
      | inr apart ↦
          subst (λ o. (o ≡ some v) ⊎ ((o ≡ none) × (v.expires_at < now)))
            (sym (get-without s.images k id ∙ (rw apart))) h.here
    ];
  }

  Held-remove_all :
      (now : ℕ) (ids : List String) (s : ImageStore)
      → All (λ k. (k == id) ≡ true → v.expires_at < now) ids
      → Held now s
      → Held now (remove_all s ids)
  unfolding remove_all
  Held-remove_all now [] s old h = h
  Held-remove_all now (k ∷ ids) s old h =
      Held-remove_all now ids (remove_image s k) old.1 (Held-remove now s k old.0 h)

  expired_ids-old :
      (now : ℕ) (d : Dict String StoredImage)
      → All IsIt d
      → All (λ k. (k == id) ≡ true → v.expires_at < now) (expired_ids now d)
  unfolding expired_ids
  expired_ids-old now [] all = tt
  expired_ids-old now ((j, w) ∷ d) all = elim (Bool-cases (ltb w.expires_at now)) [
    | inl old ↦ rw old (
      (λ p. let e = ap (λ (x : StoredImage). x.expires_at) (all.0 p) in ground arith),
      expired_ids-old now d all.1,
    )
    | inr young ↦ rw young (expired_ids-old now d all.1)
  ]

  Held-later : (now later : ℕ) (s : ImageStore) → now ≤ later → Held now s → Held later s
  Held-later now later s le h = record {
    only = h.only;
    here = elim h.here [ inl there ↦ inl there | inr (gone, old) ↦ inr (gone, omega arith) ];
  }

  Held-get : (now : ℕ) (s : ImageStore) (k : String) → Held now s → Held now (get_image s k now).1
  unfolding get_image
  Held-get now s k h = at (get s.images k) refl
    where
      at : (o : Option StoredImage) → get s.images k ≡ o → Held now (unexpired s k now o).1
      at none e = h
      at (some w) e = elim (Bool-cases (ltb w.expires_at now)) [
        | inl old ↦ rw old (
            Held-remove now s k
              (λ p.
                let is : w ≡ v = All-Mem IsIt s.images (k, w) h.only (get-Mem s.images k w e) p in
                let same = ap (λ (x : StoredImage). x.expires_at) is in ground arith)
              h)
        | inr young ↦ rw young h
      ]

  Held-act :
      (paths : Paths) (s : ImageStore) (a : Action)
      → Apart id a
      → Held (time_of a) s
      → Held (time_of a) (act paths s a)
  unfolding act cleanup_expired store_image
  Held-act paths s (gets now k) apart h = Held-get now s k h
  Held-act paths s (cleans now) apart h =
      Held-remove_all now (expired_ids now s.images) s (expired_ids-old now s.images h.only) h
  Held-act paths s (stores now k bytes content_type) apart h =
      with_extension (extension_of paths content_type)
    where
      with_extension :
          (r : Result String)
          → Held now (
              or_same s
                (r >>= λ ext. ok (stored_under s k now bytes content_type (paths.path_of k ext))))
      with_extension (raise e) = h
      with_extension (ok ext) =
          let image = (stored_under s k now bytes content_type (paths.path_of k ext)).0 in
          record {
            only = All-insert s.images k image apart h.only;
            here =
                subst (λ o. (o ≡ some v) ⊎ ((o ≡ none) × (v.expires_at < now)))
                  (sym (get-insert s.images k id image ∙ (rw apart))) h.here;
          }

  Held-act_all :
      (paths : Paths) (actions : List Action) (s : ImageStore) (now later : ℕ)
      → All (Apart id) actions
      → Rising now (map time_of actions ++ later ∷ [])
      → Held now s
      → Held later (act_all paths s actions)
  unfolding act_all
  Held-act_all paths [] s now later apart rising h = Held-later now later s rising.0 h
  Held-act_all paths (a ∷ actions) s now later apart rising h =
      Held-act_all paths actions (act paths s a) (time_of a) later apart.1 rising.1
        (Held-act paths s a apart.0 (Held-later now (time_of a) s rising.0 h))

  -- What a key that is not there has.
  absent-All : (d : Dict String StoredImage) → get d id ≡ none → All IsIt d
  unfolding get
  absent-All [] h = tt
  absent-All ((j, w) ∷ d) h = elim (Bool-cases (j == id)) [
    | inl same ↦ absurd (clash w (rw same at h))
    | inr apart ↦ ((λ p. absurd (false≢true (sym apart ∙ p))), absent-All d (rw apart at h))
  ]
    where
      clash : (u : StoredImage) → some u ≡ none → ⊥
      clash u e = cc

-- If time never falls, an image that was stored under a new identifier is got, unchanged, as long as
-- it has not expired, and not any more after that, whatever else is stored under other identifiers,
-- got and cleaned up in between.
pub get_image-stored :
    (paths : Paths) (s s' : ImageStore) (id : String) (now later : ℕ) (bytes : List ℕ)
    (content_type : String) (v : StoredImage) (actions : List Action)
    → get s.images id ≡ none
    → store_image paths s id now bytes content_type ≡ ok (v, s')
    → All (Apart id) actions
    → Rising now (map time_of actions ++ later ∷ [])
    → (get_image (act_all paths s' actions) id later).0
      ≡ (if ltb v.expires_at later then none else some v)
unfolding store_image get_image get
get_image-stored paths s s' id now later bytes content_type v actions new stored apart rising =
    let (ext, e, h) = chain (extension_of paths content_type) _ (v, s') stored in
    let same =
      ok-injective (stored_under s id now bytes content_type (paths.path_of id ext)) (v, s') h in
    let v_is = ap (λ (p : StoredImage × ImageStore). p.0) same in
    let s_is = ap (λ (p : StoredImage × ImageStore). p.1.images) same in
    let images_are : s.images ++ (id, v) ∷ [] ≡ s'.images =
      ap (λ w. s.images ++ (id, w) ∷ []) (sym v_is)
      ∙ sym (insert-append s.images id _ new)
      ∙ s_is in
    let only =
      All-append (IsIt id v) s.images ((id, v) ∷ []) (absent-All id v s.images new)
        ((λ p. refl), tt) in
    let there : get s'.images id ≡ some v =
      ap (λ d. get d id) (sym images_are)
      ∙ get-append s.images ((id, v) ∷ []) id new
      ∙ (rw (==_refl id)) in
    let held =
      Held-act_all id v paths actions s' now later apart rising
        (record { only = subst (All (IsIt id v)) images_are only; here = inl there }) in
    answers (get (act_all paths s' actions).images id) held.here
  where
    answers :
        (o : Option StoredImage)
        → (o ≡ some v) ⊎ ((o ≡ none) × (v.expires_at < later))
        → (unexpired (act_all paths s' actions) id later o).0
          ≡ (if ltb v.expires_at later then none else some v)
    answers o (inl there) = elim (Bool-cases (ltb v.expires_at later)) [
      | inl old ↦ rw (there, old)
      | inr young ↦ rw (there, young)
    ]
    answers o (inr (gone, old)) =
        let is : ltb v.expires_at later ≡ true = ground arith in rw (gone, is)
