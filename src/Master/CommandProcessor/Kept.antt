-- ===== src/Master/CommandProcessor/Kept.antt =====
-- What commands about instances keep of a dictionary of instances, and what a command that ends
-- has sent.
use agent_setup.Base.{
  ◌≡◌, refl, sym, ap, ◌∙◌, Bool, true, false, Option, none, some, List, [], ◌∷◌, ◌++◌, inl, inr,
  ◌⊎◌, Bool-cases, if◌then◌else◌, All, arith, false≢true,
}
use agent_setup.Base.Eq.{◌==◌, text_eq, ==_eq, ==_refl}
use agent_setup.Base.Dict.{
  Dict, get, has, insert, without, is_some, has-get, get-without, get-insert,
}
use agent_setup.Base.Result.{Result, Error, ok, raise, value_error, ok-injective}
use agent_setup.Types.Workers.{Instance, InstanceId}
use agent_setup.Types.Tasks.{CommandId}
use agent_setup.Types.Events.{EventKind}
use agent_setup.Shared.Interface.{TopologyOps}
use agent_setup.Master.Placement.Allocation.{Floats}
use agent_setup.Master.Placement.Transitions.Reached.{Unique}
use agent_setup.Master.CommandProcessor.{recover, Commander, Draws}

-- Every instance stands under its own identifier.
abbrev pub Own : Dict InstanceId Instance → Type 0
Own d = All (λ (p : InstanceId × Instance). p.1.instance_id ≡ p.0) d

has-without :
    (d : Dict InstanceId Instance) (k j : InstanceId)
    → has d j ≡ false
    → has (without d k) j ≡ false
has-without d k j h =
    has-get (without d k) j
    ∙ ap is_some (get-without d k j)
    ∙ gone (k == j) (get d j) (sym (has-get d j) ∙ h)
  where
    gone :
        (b : Bool) (o : Option Instance)
        → is_some o ≡ false
        → is_some (if b then none else o) ≡ false
    gone b o e = ground arith

pub Unique-without :
    (d : Dict InstanceId Instance) (k : InstanceId) → Unique d → Unique (without d k)
unfolding without
Unique-without [] k u = tt
Unique-without ((j, v) ∷ d) k u = elim (Bool-cases (j == k)) [
  | inl same ↦ rw same (Unique-without d k u.1)
  | inr other ↦ rw other (has-without d k j u.0, Unique-without d k u.1)
]

pub Own-without : (d : Dict InstanceId Instance) (k : InstanceId) → Own d → Own (without d k)
unfolding without
Own-without [] k o = tt
Own-without ((j, v) ∷ d) k o = elim (Bool-cases (j == k)) [
  | inl same ↦ rw same (Own-without d k o.1)
  | inr other ↦ rw other (o.0, Own-without d k o.1)
]

has-insert-other :
    (d : Dict InstanceId Instance) (k j : InstanceId) (v : Instance)
    → (k == j) ≡ false
    → has (insert d k v) j ≡ has d j
has-insert-other d k j v e =
    has-get (insert d k v) j ∙ ap is_some (get-insert d k j v) ∙ (rw e) ∙ sym (has-get d j)

apart_sym : (j k : InstanceId) → (j == k) ≡ false → (k == j) ≡ false
apart_sym j k e = elim (Bool-cases (k == j)) [
  | inl same ↦ absurd (false≢true (sym e ∙ ap (λ x. j == x) (==_eq k j same) ∙ ==_refl j))
  | inr other ↦ other
]

pub Unique-insert :
    (d : Dict InstanceId Instance) (k : InstanceId) (v : Instance)
    → Unique d
    → Unique (insert d k v)
unfolding insert
Unique-insert [] k v u = (unfold has in refl, tt)
Unique-insert ((j, w) ∷ d) k v u = elim (Bool-cases (j == k)) [
  | inl same ↦ rw same u
  | inr other ↦
      rw other (has-insert-other d k j v (apart_sym j k other) ∙ u.0, Unique-insert d k v u.1)
]

pub Own-insert :
    (d : Dict InstanceId Instance) (k : InstanceId) (v : Instance)
    → v.instance_id ≡ k
    → Own d
    → Own (insert d k v)
unfolding insert
Own-insert [] k v e o = (e, tt)
Own-insert ((j, w) ∷ d) k v e o = elim (Bool-cases (j == k)) [
  | inl same ↦ rw same (e ∙ sym (==_eq j k same), o.1)
  | inr other ↦ rw other (o.0, Own-insert d k v e o.1)
]

pub absent_already :
    (d : Dict InstanceId Instance) (i k : InstanceId)
    → has d i ≡ false
    → get d k ≡ (if i == k then none else get d k)
absent_already d i k h = elim (Bool-cases (i == k)) [
  | inl same ↦
      rw same (absent (get d k) (sym (has-get d k) ∙ ap (has d) (sym (==_eq i k same)) ∙ h))
  | inr other ↦ rw other
]
  where
    absent : (o : Option Instance) → is_some o ≡ false → o ≡ none
    absent none e = refl
    absent (some x) e = absurd (cc)

pub unchanged :
    (d : Dict InstanceId Instance) (i k : InstanceId)
    → has d k ≡ true
    → has (without d i) k ≡ true
    → get (without d i) k ≡ get d k
unchanged d i k h g = elim (Bool-cases (i == k)) [
  | inl same ↦
      absurd (
        false≢true (sym (has-get (without d i) k ∙ ap is_some (get-without d i k) ∙ (rw same)) ∙ g))
  | inr other ↦ get-without d i k ∙ (rw other)
]

module _ (floats : Floats) (net : TopologyOps) (listing : List InstanceId → List InstanceId)
    (tracing : Bool) (draws : Draws) (command_id : CommandId) where
  open net use {Topology}

  -- The events that were added are of the kinds `kinds`.
  abbrev pub Sent : Commander Topology → List EventKind → Commander Topology → Type 0
  Sent c kinds c' = c'.master.local_sent ≡ c.master.local_sent ++ kinds

  pub recover_cases :
      (c c' : Commander Topology) (r : Result (Commander Topology × List EventKind))
      → recover floats net listing c r ≡ ok c'
      → ((r ≡ raise value_error) × (c' ≡ c))
        ⊎ ((d : Commander Topology) × (kinds : List EventKind) × (r ≡ ok (d, kinds))
            × Sent d kinds c')
  unfolding recover
  recover_cases c c' (ok (d, kinds)) h = inr (
    d,
    kinds,
    refl,
    ap (λ (x : Commander Topology). x.master.local_sent) (sym (ok-injective _ c' h)),
  )
  recover_cases c c' (raise value_error) h = inl (refl, sym (ok-injective c c' h))
  recover_cases c c' (raise Error.assertion_error) h = absurd (cc)
  recover_cases c c' (raise Error.key_error) h = absurd (cc)
  recover_cases c c' (raise Error.index_error) h = absurd (cc)
  recover_cases c c' (raise Error.overflow_error) h = absurd (cc)
  recover_cases c c' (raise Error.permission_error) h = absurd (cc)
  recover_cases c c' (raise Error.integrity_error) h = absurd (cc)
  recover_cases c c' (raise Error.connection_error) h = absurd (cc)
  recover_cases c c' (raise Error.protocol_error) h = absurd (cc)
