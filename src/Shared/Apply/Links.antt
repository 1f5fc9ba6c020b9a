-- ===== src/Shared/Apply/Links.antt =====
-- What the deletion of an instance leaves of the instance links.
use agent_setup.Base.{
  ◌≡◌, ◌≢◌, refl, sym, ap, true, false, not, ◌&&◌, ◌||◌, List, [], ◌∷◌, String, Option, none, some,
  ◌⊎◌, arith, keep_if, keep_if-Mem, keep_if-keeps, Bool-cases, Option-cases, inl, inr, &&-eq-true,
}
use mathlib.Core.List.{Memᴰ}
use agent_setup.Base.Eq.{◌==◌, text_eq, ==_refl, ==_eq}
use agent_setup.Base.Dict.{Dict, get, get-without}
use agent_setup.Types.Workers.{InstanceId}
use agent_setup.Types.Nodes.{InstanceLink}
use agent_setup.Types.State.{State}
use agent_setup.Shared.Apply.{
  prune_links, prune_link, keep_link, others, same_strings, is_empty, apply_instance_deleted,
}

-- A link that does not mention the instance, with an instance on either side.
pub record Clean (gone : InstanceId) (link : InstanceLink) : Type 0 where
  pub not_prefill : ¬ Memᴰ gone link.prefill_instances
  pub not_decode : ¬ Memᴰ gone link.decode_instances
  pub prefill : is_empty link.prefill_instances ≡ false
  pub decode : is_empty link.decode_instances ≡ false

same_strings-eq : (xs ys : List String) → same_strings xs ys ≡ true → xs ≡ ys
same_strings-eq [] [] h = refl
same_strings-eq [] (y ∷ ys) h = absurd (cc)
same_strings-eq (x ∷ xs) [] h = absurd (cc)
same_strings-eq (x ∷ xs) (y ∷ ys) h =
    let (first, rest) = &&-eq-true (x == y) (same_strings xs ys) h in
    rw (==_eq x y first, same_strings-eq xs ys rest)

removed :
    (gone : InstanceId) (xs : List InstanceId) → ¬ Memᴰ gone (keep_if (λ i. not (i == gone)) xs)
removed gone xs m =
    let (_, kept) = keep_if-Mem (λ i. not (i == gone)) xs gone m in
    let self = ==_refl gone in ground (arith, kept, self)

-- Both ways in which a link stays, it has lost exactly the deleted instance.
prune_link-others :
    (gone : InstanceId) (link kept : InstanceLink)
    → prune_link gone link ≡ some kept
    → (kept.prefill_instances ≡ others gone link.prefill_instances)
      × (kept.decode_instances ≡ others gone link.decode_instances)
      × (is_empty (others gone link.prefill_instances) ≡ false)
      × (is_empty (others gone link.decode_instances) ≡ false)
unfolding prune_link
prune_link-others gone link kept h =
    let prefill = others gone link.prefill_instances in
    let decode = others gone link.decode_instances in
    elim (Bool-cases (is_empty prefill || is_empty decode)) [
      | inl dropped ↦ absurd (ground arith)
      | inr both ↦
          elim (Bool-cases (
            same_strings prefill link.prefill_instances
            && same_strings decode link.decode_instances)) [
              | inl same ↦
                  let (p, d) = &&-eq-true _ _ same in
                  let p' = same_strings-eq prefill link.prefill_instances p in
                  let d' = same_strings-eq decode link.decode_instances d in
                  let k : link ≡ kept = ground (arith, h, both, same) in
                  (rw (← k) (sym p'), rw (← k) (sym d'), ground arith, ground arith)
              | inr changed ↦ (ground arith, ground arith, ground arith, ground arith)
            ]
    ]

prune_link-Clean :
    (gone : InstanceId) (link kept : InstanceLink)
    → prune_link gone link ≡ some kept
    → Clean gone kept
prune_link-Clean gone link kept h =
    let (p, d, pe, de) = prune_link-others gone link kept h in
    record {
      not_prefill = λ m. removed gone link.prefill_instances (rw p at m);
      not_decode = λ m. removed gone link.decode_instances (rw d at m);
      prefill = rw p pe;
      decode = rw d de;
    }

kept_link :
    (k j : String) (link : InstanceLink) (r : Option InstanceLink)
    (links : Dict String InstanceLink)
    → Memᴰ (k, link) (keep_link j r links)
    → (r ≡ some link) ⊎ Memᴰ (k, link) links
unfolding keep_link
kept_link k j link none links m = inr m
kept_link k j link (some l) links (Memᴰ.head e) =
    inl (ap some (sym (ap (λ (p : String × InstanceLink). p.1) e)))
kept_link k j link (some l) links (Memᴰ.tail m) = inr m

prune_links-Clean :
    (links : Dict String InstanceLink) (gone : InstanceId) (k : String) (link : InstanceLink)
    → Memᴰ (k, link) (prune_links links gone)
    → Clean gone link
unfolding prune_links
prune_links-Clean [] gone k link m = elim m [ ]
prune_links-Clean ((j, l) ∷ links) gone k link m =
    elim (kept_link k j link (prune_link gone l) (prune_links links gone) m) [
      | inl here ↦ prune_link-Clean gone l link here
      | inr there ↦ prune_links-Clean links gone k link there
    ]

not_empty : (a : InstanceId) (xs : List InstanceId) → Memᴰ a xs → is_empty xs ≡ false
not_empty a [] m = elim m [ ]
not_empty a (x ∷ xs) m = refl

others_not_empty :
    (gone a : InstanceId) (xs : List InstanceId)
    → Memᴰ a xs
    → a ≢ gone
    → is_empty (others gone xs) ≡ false
others_not_empty gone a xs m ne =
    not_empty a (others gone xs)
      (keep_if-keeps (λ i. not (i == gone)) xs a m (ground (arith, text_eq.is_equal_iff a gone)))

-- A link that has another instance on either side stays.
prune_link-stays :
    (gone : InstanceId) (link : InstanceLink)
    → is_empty (others gone link.prefill_instances) ≡ false
    → is_empty (others gone link.decode_instances) ≡ false
    → (kept : InstanceLink) × (prune_link gone link ≡ some kept)
unfolding prune_link
prune_link-stays gone link p d = elim (Option-cases (prune_link gone link)) [
  | inl dropped ↦ absurd (ground (arith, p, d, dropped))
  | inr stays ↦ stays
]

stay_in :
    (links : Dict String InstanceLink) (gone : InstanceId) (k : String) (link kept : InstanceLink)
    → prune_link gone link ≡ some kept
    → Memᴰ (k, link) links
    → Memᴰ (k, kept) (prune_links links gone)
unfolding prune_links keep_link
stay_in [] gone k link kept h m = elim m [ ]
stay_in ((j, l) ∷ links) gone k link kept h (Memᴰ.head e) =
    rw (← ap (λ (p : String × InstanceLink). p.1) e, h)
      (Memᴰ.head (rw (ap (λ (p : String × InstanceLink). p.0) e) refl))
stay_in ((j, l) ∷ links) gone k link kept h (Memᴰ.tail m) =
    later (prune_link gone l) (stay_in links gone k link kept h m)
  where
    later :
        (r : Option InstanceLink)
        → Memᴰ (k, kept) (prune_links links gone)
        → Memᴰ (k, kept) (keep_link j r (prune_links links gone))
    later none n = n
    later (some x) n = Memᴰ.tail n

-- What remains of a link that has other instances on both sides.
pub record Remains (s : Dict String InstanceLink) (gone : InstanceId) (k : String)
    (link : InstanceLink) : Type 0 where
  pub kept : InstanceLink
  pub stored : Memᴰ (k, kept) s
  pub prefill : kept.prefill_instances ≡ others gone link.prefill_instances
  pub decode : kept.decode_instances ≡ others gone link.decode_instances

-- After an instance is deleted it is not found, no link mentions it, no link has an empty side, and
-- every link that had another instance on both sides is still there with exactly its other
-- instances.
pub apply_instance_deleted-links :
    {T : Type 0} (gone : InstanceId) (s : State T)
    → (get (apply_instance_deleted gone s).instances gone ≡ none)
      × ((k : String) (link : InstanceLink)
          → Memᴰ (k, link) (apply_instance_deleted gone s).instance_links
          → Clean gone link)
      × ((k : String) (link : InstanceLink) (a b : InstanceId)
          → Memᴰ (k, link) s.instance_links
          → Memᴰ a link.prefill_instances
          → a ≢ gone
          → Memᴰ b link.decode_instances
          → b ≢ gone
          → Remains (apply_instance_deleted gone s).instance_links gone k link)
unfolding apply_instance_deleted
apply_instance_deleted-links gone s = (
  rw (get-without, ==_refl gone),
  prune_links-Clean s.instance_links gone,
  λ k link a b m ma na mb nb.
      let (kept, h) =
        prune_link-stays gone link (others_not_empty gone a link.prefill_instances ma na)
          (others_not_empty gone b link.decode_instances mb nb) in
      let (p, d, pe, de) = prune_link-others gone link kept h in
      record {
        kept = kept;
        stored = stay_in s.instance_links gone k link kept h m;
        prefill = p;
        decode = d;
      },
)
