-- ===== src/Shared/Apply/WellFormed.antt =====
-- What holds of the state after any events.
use agent_setup.Base.{
  ◌≡◌, ◌≢◌, refl, ◌∙◌, true, some, List, [], ◌∷◌, String, arith, All, All-map, Bool-cases, inl, inr,
  subst,
}
use agent_setup.Base.Eq.{◌==◌, text_eq, ==_eq, ==_refl}
use agent_setup.Base.Dict.{Dict, get, insert, without, get-insert, get-without, is_some}
use agent_setup.Types.Common.{NodeId}
use agent_setup.Types.Workers.{InstanceId, Instance, DownloadProgress}
use agent_setup.Shared.Apply.{replace_download, model_of, or_nil}

-- Every key of the first dictionary is a key of the second.
abbrev pub Within : {V W : Type 0} → Dict String V → Dict String W → Type 0
Within d d' = (k : String) → is_some (get d k) ≡ true → is_some (get d' k) ≡ true

module _ {V W : Type 0} (d : Dict String V) (d' : Dict String W) where
  pub Within-insert_right : (j : String) (w : W) → Within d d' → Within d (insert d' j w)
  Within-insert_right j w all k h = ground (arith, get-insert d' j k w, all k h)

  pub Within-insert_left :
      (j : String) (v : V) → is_some (get d' j) ≡ true → Within d d' → Within (insert d j v) d'
  Within-insert_left j v there all k h =
      ground (arith, get-insert d j k v, all k, there, text_eq.is_equal_iff j k)

  pub Within-without : (j : String) → Within d d' → Within (without d j) (without d' j)
  Within-without j all k h = ground (arith, get-without d j k, get-without d' j k, all k, h)

pub is_some-insert :
    {V : Type 0} (d : Dict String V) (j : String) (v : V) → is_some (get (insert d j v) j) ≡ true
is_some-insert d j v = rw (get-insert, ==_refl j)

-- A node's downloads are its own, with one entry for a model.
abbrev pub Distinct : List DownloadProgress → Type 0
Distinct [] = Unit
Distinct (x ∷ xs) = All (λ y. model_of x ≢ model_of y) xs × Distinct xs

All-replace_download :
    (P : DownloadProgress → Type 0) (xs : List DownloadProgress) (dp : DownloadProgress)
    → P dp
    → All P xs
    → All P (replace_download xs dp)
unfolding replace_download
All-replace_download P [] dp p all = (p, tt)
All-replace_download P (x ∷ xs) dp p all = elim (Bool-cases (model_of x == model_of dp)) [
  | inl same ↦ rw same (p, all.1)
  | inr apart ↦ rw apart (all.0, All-replace_download P xs dp p all.1)
]

replace_download-Distinct :
    (xs : List DownloadProgress) (dp : DownloadProgress)
    → Distinct xs
    → Distinct (replace_download xs dp)
unfolding replace_download
replace_download-Distinct [] dp d = (tt, tt)
replace_download-Distinct (x ∷ xs) dp d = elim (Bool-cases (model_of x == model_of dp)) [
  | inl same ↦
      let e = ==_eq (model_of x) (model_of dp) same in
      rw same (
        All-map (λ y. model_of x ≢ model_of y) (λ y. model_of dp ≢ model_of y) xs
            (λ y ne p. ne (e ∙ p)) d.0,
        d.1,
      )
  | inr apart ↦ rw apart (
    All-replace_download (λ y. model_of x ≢ model_of y) xs dp
        (λ e. ground (arith, text_eq.is_equal_iff (model_of x) (model_of dp))) d.0,
    replace_download-Distinct xs dp d.1,
  )
]

abbrev pub OwnDownloads : NodeId → List DownloadProgress → Type 0
OwnDownloads n dps = All (λ (dp : DownloadProgress). dp.node_id ≡ n) dps × Distinct dps

replace_download-OwnDownloads :
    (xs : List DownloadProgress) (dp : DownloadProgress)
    → OwnDownloads dp.node_id xs
    → OwnDownloads dp.node_id (replace_download xs dp)
replace_download-OwnDownloads xs dp (own, d) = (
  All-replace_download (λ (x : DownloadProgress). x.node_id ≡ dp.node_id) xs dp refl own,
  replace_download-Distinct xs dp d,
)

abbrev pub Downloads : Dict NodeId (List DownloadProgress) → Type 0
Downloads d = (n : NodeId) → OwnDownloads n (or_nil (get d n))

pub Downloads-progress :
    (d : Dict NodeId (List DownloadProgress)) (dp : DownloadProgress)
    → Downloads d
    → Downloads (insert d dp.node_id (replace_download (or_nil (get d dp.node_id)) dp))
Downloads-progress d dp all n = elim (Bool-cases (dp.node_id == n)) [
  | inl same ↦
      let e = ==_eq dp.node_id n same in
      rw (get-insert, same)
        (subst (λ m. OwnDownloads m (replace_download (or_nil (get d dp.node_id)) dp)) e
          (replace_download-OwnDownloads (or_nil (get d dp.node_id)) dp (all dp.node_id)))
  | inr apart ↦ rw (get-insert, apart) (all n)
]

pub Downloads-without :
    (d : Dict NodeId (List DownloadProgress)) (gone : NodeId)
    → Downloads d
    → Downloads (without d gone)
Downloads-without d gone all n = elim (Bool-cases (gone == n)) [
  | inl same ↦ rw (get-without, same) (tt, tt)
  | inr apart ↦ rw (get-without, apart) (all n)
]

abbrev pub Keyed : Dict InstanceId Instance → Type 0
Keyed d = (k : InstanceId) (i : Instance) → get d k ≡ some i → i.instance_id ≡ k

pub Keyed-insert :
    (d : Dict InstanceId Instance) (i : Instance) → Keyed d → Keyed (insert d i.instance_id i)
Keyed-insert d i all k x h =
    ground (arith, get-insert d i.instance_id k i, all k x, text_eq.is_equal_iff i.instance_id k)

pub Keyed-without :
    (d : Dict InstanceId Instance) (gone : InstanceId) → Keyed d → Keyed (without d gone)
Keyed-without d gone all k x h = ground (arith, get-without d gone k, all k x)
