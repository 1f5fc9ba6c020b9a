-- ===== src/Worker/Plan/Readings.antt =====
-- What the planners' tests of statuses, downloads and inputs tell, said without those tests.
use mathlib.Core.List.{Memᴰ}
use agent_setup.Base.{
  ℕ, zero, suc, ◌≤◌, ◌≡◌, ◌≢◌, refl, sym, ◌∙◌, Bool, true, false, false≢true, not, ◌&&◌, ◌||◌,
  Option, none, some, List, [], String, arith, inl, inr, ltb, length, Option-cases, &&-eq-true,
  ||-eq-true, any_of, all_of-Mem, any_of-Mem, any_of-not-Mem,
}
use agent_setup.Base.Eq.{◌==◌, text_eq, ==_eq, ==_refl}
use agent_setup.Base.Dict.{Dict, get}
use agent_setup.Types.Common.{NodeId}
use agent_setup.Types.Workers.{
  ModelId, RunnerId, RunnerStatus, DownloadProgress, DownloadStatus, Host,
}
use agent_setup.Types.Tasks.{TaskKind, CommandId}
use agent_setup.Worker.Plan.{
  is_idle, is_connected, is_loaded, may_load, is_warm, is_serving, status_is, mem, all_are,
  others_are,
}
use agent_setup.Worker.Plan.Setup.{is_completed, downloads_of, all_downloaded}
use agent_setup.Worker.Plan.Serve.{chunks_of, has_inputs}

pub data Serving : RunnerStatus → Type 0 where
  is_ready : {port : Option ℕ} → Serving (RunnerStatus.runner_ready port)
  is_running : Serving RunnerStatus.runner_running

pub data Warm : RunnerStatus → Type 0 where
  warming : Warm RunnerStatus.runner_warming_up
  warmed : {port : Option ℕ} → Warm (RunnerStatus.runner_ready port)

pub data LoadedOrWarm : RunnerStatus → Type 0 where
  has_loaded : LoadedOrWarm RunnerStatus.runner_loaded
  is_warm_too : {s : RunnerStatus} → Warm s → LoadedOrWarm s

pub data ConnectedOn : RunnerStatus → Type 0 where
  connected_now : ConnectedOn RunnerStatus.runner_connected
  loading_now : {loaded total : ℕ} → ConnectedOn (RunnerStatus.runner_loading loaded total)
  loaded_now : ConnectedOn RunnerStatus.runner_loaded

pub is_serving-Serving : (s : RunnerStatus) → is_serving s ≡ true → Serving s
is_serving-Serving (RunnerStatus.runner_ready port) h = is_ready
is_serving-Serving RunnerStatus.runner_running h = is_running
is_serving-Serving _ h = absurd (cc)

pub is_warm-Warm : (s : RunnerStatus) → is_warm s ≡ true → Warm s
is_warm-Warm RunnerStatus.runner_warming_up h = warming
is_warm-Warm (RunnerStatus.runner_ready port) h = warmed
is_warm-Warm _ h = absurd (cc)

pub loaded_or_warm : (s : RunnerStatus) → (is_loaded s || is_warm s) ≡ true → LoadedOrWarm s
loaded_or_warm RunnerStatus.runner_loaded h = has_loaded
loaded_or_warm RunnerStatus.runner_warming_up h = is_warm_too warming
loaded_or_warm (RunnerStatus.runner_ready port) h = is_warm_too warmed
loaded_or_warm _ h = absurd (cc)

pub may_load-ConnectedOn : (s : RunnerStatus) → may_load s ≡ true → ConnectedOn s
may_load-ConnectedOn RunnerStatus.runner_connected h = connected_now
may_load-ConnectedOn (RunnerStatus.runner_loading loaded total) h = loading_now
may_load-ConnectedOn RunnerStatus.runner_loaded h = loaded_now
may_load-ConnectedOn _ h = absurd (cc)

pub is_idle-eq : (s : RunnerStatus) → is_idle s ≡ true → s ≡ RunnerStatus.runner_idle
is_idle-eq RunnerStatus.runner_idle h = refl
is_idle-eq _ h = absurd (cc)

pub is_connected-eq : (s : RunnerStatus) → is_connected s ≡ true → s ≡ RunnerStatus.runner_connected
is_connected-eq RunnerStatus.runner_connected h = refl
is_connected-eq _ h = absurd (cc)

pub is_loaded-eq : (s : RunnerStatus) → is_loaded s ≡ true → s ≡ RunnerStatus.runner_loaded
is_loaded-eq RunnerStatus.runner_loaded h = refl
is_loaded-eq _ h = absurd (cc)

pub mem-Mem : (x : String) (xs : List String) → mem x xs ≡ true → Memᴰ x xs
mem-Mem x xs h = let (y, m, e) = any_of-Mem (λ y. y == x) xs h in rw (← ==_eq y x e) m

pub mem-not-Mem : (x : String) (xs : List String) → mem x xs ≡ false → Memᴰ x xs → ⊥
mem-not-Mem x xs h m = false≢true (sym (any_of-not-Mem (λ y. y == x) xs x h m) ∙ ==_refl x)

module _ (all_runners : Dict RunnerId RunnerStatus) where
  -- The runner is known, with a status of that kind.
  abbrev pub Has : (RunnerStatus → Type 0) → RunnerId → Type 0
  Has P id = (status : RunnerStatus) × (get all_runners id ≡ some status) × P status

  module _ (test : RunnerStatus → Bool) (P : RunnerStatus → Type 0)
      (tells : (s : RunnerStatus) → test s ≡ true → P s) where
    status_is-Has : (id : RunnerId) → status_is test (get all_runners id) ≡ true → Has P id
    status_is-Has id h = elim (Option-cases (get all_runners id)) [
      | inl unknown ↦ absurd (lost (rw unknown at h))
      | inr (status, known) ↦ (status, known, tells status (rw known at h))
    ]
      where
        lost : false ≡ true → ⊥
        lost e = false≢true e

    pub all_are-Has :
        (ids : List RunnerId)
        → all_are all_runners test ids ≡ true
        → (id : RunnerId) → Memᴰ id ids
        → Has P id
    unfolding all_are
    all_are-Has ids h id m = status_is-Has id (all_of-Mem _ ids id h m)

    pub others_are-Has :
        (own : RunnerId) (ids : List RunnerId)
        → others_are all_runners own test ids ≡ true
        → (id : RunnerId) → Memᴰ id ids
        → id ≢ own
        → Has P id
    unfolding others_are
    others_are-Has own ids h id m apart =
        elim (||-eq-true (id == own) (status_is test (get all_runners id))
          (all_of-Mem _ ids id h m)) [
            | inl same ↦ absurd (apart (==_eq id own same))
            | inr is ↦ status_is-Has id is
          ]

-- The node reports a completed download of the model.
abbrev pub HasModel : Dict NodeId (List DownloadProgress) → ModelId → NodeId → Type 0
HasModel downloads model_id nid =
    (dps : List DownloadProgress) × (dp : DownloadProgress) × (total : ℕ) × (read_only : Bool)
    × (get downloads nid ≡ some dps)
    × Memᴰ dp dps
    × (dp.status ≡ DownloadStatus.download_completed total read_only)
    × (dp.shard_metadata.model_card.model_id ≡ model_id)

completed_is :
    (s : DownloadStatus)
    → is_completed s ≡ true
    → (total : ℕ) × (read_only : Bool) × (s ≡ DownloadStatus.download_completed total read_only)
completed_is (DownloadStatus.download_completed total read_only) h = (total, read_only, refl)
completed_is _ h = absurd (cc)

pub all_downloaded-HasModel :
    (downloads : Dict NodeId (List DownloadProgress)) (model_id : ModelId) (nodes : List NodeId)
    → all_downloaded downloads model_id nodes ≡ true
    → (nid : NodeId) → Memᴰ nid nodes
    → HasModel downloads model_id nid
unfolding all_downloaded
all_downloaded-HasModel downloads model_id nodes h nid m =
    at (get downloads nid) refl (all_of-Mem _ nodes nid h m)
  where
    at :
        (o : Option (List DownloadProgress))
        → get downloads nid ≡ o
        → any_of
            (λ (dp : DownloadProgress).
              is_completed dp.status && dp.shard_metadata.model_card.model_id == model_id)
            (downloads_of o)
          ≡ true
        → HasModel downloads model_id nid
    at none e t = let (dp, k, r) = any_of-Mem _ [] t in elim k [ ]
    at (some dps) e t =
        let (dp, k, r) = any_of-Mem _ dps t in
        let (c, same) =
          &&-eq-true (is_completed dp.status) (dp.shard_metadata.model_card.model_id == model_id)
            r in
        let (total, read_only, is) = completed_is dp.status c in
        (
          dps,
          dp,
          total,
          read_only,
          e,
          k,
          is,
          ==_eq dp.shard_metadata.model_card.model_id model_id same,
        )

-- What a task waits for before it is served: a chat for all its images, an edit for all its chunks.
-- Other kinds are never served.
pub data Arrived (chunks : Dict CommandId (Dict ℕ String)) (cache : List String)
    : TaskKind → Type 0 where
  chat :
      {c : CommandId} {hashes : List String} {endpoint : Option Host} {rest : String}
      → ((h : String) → Memᴰ h hashes → Memᴰ h cache)
      → Arrived chunks cache (TaskKind.text_generation c hashes endpoint rest)
  image : {c : CommandId} {rest : String} → Arrived chunks cache (TaskKind.image_generation c rest)
  no_chunks : {c : CommandId} {rest : String} → Arrived chunks cache (TaskKind.image_edits c 0 rest)
  all_chunks :
      {c : CommandId} {total : ℕ} {rest : String} (got : Dict ℕ String)
      → get chunks c ≡ some got
      → total ≤ length got
      → Arrived chunks cache (TaskKind.image_edits c total rest)

module _ (chunks : Dict CommandId (Dict ℕ String)) (cache : List String) where
  edits-Arrived :
      (c : CommandId) (total : ℕ) (rest : String) (o : Option (Dict ℕ String))
      → get chunks c ≡ o
      → not (ltb 0 total && ltb (chunks_of o) total) ≡ true
      → Arrived chunks cache (TaskKind.image_edits c total rest)
  edits-Arrived c zero rest o e h = no_chunks
  edits-Arrived c (suc n) rest none e h = absurd (ground arith)
  edits-Arrived c (suc n) rest (some got) e h = all_chunks got e (ground arith)

  pub has_inputs-Arrived :
      (kind : TaskKind) → has_inputs chunks cache kind ≡ true → Arrived chunks cache kind
  unfolding has_inputs
  has_inputs-Arrived (TaskKind.text_generation c hashes endpoint rest) h =
      chat (λ x m. mem-Mem x cache (all_of-Mem _ hashes x h m))
  has_inputs-Arrived (TaskKind.image_generation c rest) h = image
  has_inputs-Arrived (TaskKind.image_edits c total rest) h =
      edits-Arrived c total rest (get chunks c) refl h
  has_inputs-Arrived _ h = absurd (cc)
