-- ===== src/Service/Core/Stalled.antt =====
-- What an update for a host policy (src/service/core/kvmsUpdate.go) does before InitServer
-- (src/service/server/server.go) has made the policy channel.
use mathlib.Core.Option.{get_or as value_or}
use kvm_service.Prelude.{
  ℕ, String, List, [], ◌∷◌, Option, none, some, true, ◌≡◌, ◌≢◌, ◌⊎◌, inl, inr, refl, ◌∙◌, ap, GoMap,
  lookup, length, lt→ltb, string_eq, All, if◌then◌else◌, Bool-cases, Option-cases, arith,
}
use kvm_service.Go.Outcome.{Outcome, Outcome-cases, done, exit, blocked, ok, for_each}
use kvm_service.Go.Outcome.Rules.{Ensures-both}
use kvm_service.Common.Match.{JsonCodec, clone, match_identities, match_identities_iff}
use kvm_service.Types.Events.{HostSecuritySpec, K8sKubeArmorHostPolicyEvent}
use kvm_service.Etcd.Driver.{Driver, IsLawful, IsHealthy}
use kvm_service.Service.State.{Kvms, unmade, send, send_on}
use kvm_service.Service.Core.Pool.{IsPlain}
use kvm_service.Service.Core.Pool.Refresh.{IsRefreshed, get_all_etcd_ew_labels-IsRefreshed}
use kvm_service.Service.Core.Progress.{IsReadable, IsListed, get_all_etcd_ew_labels-returns}
use kvm_service.Service.Core.Delivery.{addressees, IsSelected, IsCurrent, none_contained}
use kvm_service.Service.Core.{
  pass_over_to_kvms_agent, get_identity_from_label_pool, label_texts, get_all_etcd_ew_labels,
  notify_label, notify_labels, update_host_security_policies,
}

-- The policy selects, and the pool lists some identity under its labels.
abbrev pub HasAddressee : {E : Type 0} → List String → Kvms E → Type 0
HasAddressee labels s = IsSelected labels s × (addressees s.map_label_to_identities labels ≢ [])

-- The run waits for ever, for its addressee, or returns and had none.
abbrev pub IsStuckOn : {E : Type 0} → List String → Kvms E → Outcome (Kvms E) (Unit {0}) → Type 0
IsStuckOn labels t o =
    (HasAddressee labels t × (o ≡ exit blocked t)) ⊎ ((HasAddressee labels t → ⊥) × (o ≡ done tt t))

module _ {E : Type 0} (event : K8sKubeArmorHostPolicyEvent) (s : Kvms E)
    (nil : s.policy_chan ≡ unmade) where
  pass_over-blocked :
      (i : ℕ) (identities : List ℕ)
      → pass_over_to_kvms_agent event (i ∷ identities) s ≡ exit blocked s
  unfolding pass_over_to_kvms_agent send send_on
  pass_over-blocked i identities = rw (nil, send_on) refl

  module _ (d : Driver E) (range : GoMap String String → GoMap String String) where
    notify_label-bare :
        (label : String)
        → value_or (lookup label s.map_label_to_identities) [] ≡ []
        → notify_label d range event label s ≡ done tt s
    unfolding notify_label get_identity_from_label_pool
    notify_label-bare label bare = rw bare refl

    notify_label-blocked :
        (label : String) (i : ℕ) (pool : List ℕ)
        → value_or (lookup label s.map_label_to_identities) [] ≡ i ∷ pool
        → notify_label d range event label s ≡ exit blocked s
    unfolding notify_label get_identity_from_label_pool
    notify_label-blocked label i pool some_listed =
        rw (some_listed, lt→ltb 0 (length (i ∷ pool)) (omega arith)) (pass_over-blocked i pool)

    -- The loop over the labels ends at the first with an addressee.
    notify_each-cases :
        (labels : List String)
        → ((addressees s.map_label_to_identities labels ≢ [])
            × (for_each labels (notify_label d range event) s ≡ exit blocked s))
          ⊎ ((addressees s.map_label_to_identities labels ≡ [])
              × (for_each labels (notify_label d range event) s ≡ done tt s))
    unfolding addressees
    notify_each-cases [] = inr (refl, refl)
    notify_each-cases (label ∷ labels) =
        by_pool (notify_each-cases labels) (value_or (lookup label s.map_label_to_identities) [])
          refl
      where
        by_pool :
            ((addressees s.map_label_to_identities labels ≢ [])
                × (for_each labels (notify_label d range event) s ≡ exit blocked s))
              ⊎ ((addressees s.map_label_to_identities labels ≡ [])
                  × (for_each labels (notify_label d range event) s ≡ done tt s))
            → (pool : List ℕ) → value_or (lookup label s.map_label_to_identities) [] ≡ pool
            → ((addressees s.map_label_to_identities (label ∷ labels) ≢ [])
                × (for_each (label ∷ labels) (notify_label d range event) s ≡ exit blocked s))
              ⊎ ((addressees s.map_label_to_identities (label ∷ labels) ≡ [])
                  × (for_each (label ∷ labels) (notify_label d range event) s ≡ done tt s))
        by_pool later [] h = elim later [
          | inl (some_listed, stuck) ↦ inl (rw h some_listed, rw (notify_label-bare label h) stuck)
          | inr (none_listed, ends) ↦ inr (rw h none_listed, rw (notify_label-bare label h) ends)
        ]
        by_pool later (i ∷ pool) h =
            inl (rw h (λ e. cc), rw (notify_label-blocked label i pool h) refl)

    notify_labels-unknown :
        (labels : List String)
        → s.etcd_ew_labels ≡ none
        → notify_labels d range event labels s ≡ done tt s
    unfolding notify_labels
    notify_labels-unknown labels h =
        ap
          (λ (k : Option (List String)). elim k as (λ _. Outcome (Kvms E) (Unit {0})) [
            | none ↦ done tt s
            | some known ↦
                if match_identities labels known
                then for_each labels (notify_label d range event) s
                else done tt s
          ])
          h

    notify_labels-known :
        (labels known : List String)
        → s.etcd_ew_labels ≡ some known
        → notify_labels d range event labels s ≡ (
            if match_identities labels known
            then for_each labels (notify_label d range event) s
            else done tt s)
    unfolding notify_labels
    notify_labels-known labels known h =
        ap
          (λ (k : Option (List String)). elim k as (λ _. Outcome (Kvms E) (Unit {0})) [
            | none ↦ done tt s
            | some known ↦
                if match_identities labels known
                then for_each labels (notify_label d range event) s
                else done tt s
          ])
          h

    notify_labels-IsStuckOn :
        (labels : List String) → IsStuckOn labels s (notify_labels d range event labels s)
    notify_labels-IsStuckOn labels = elim (Option-cases s.etcd_ew_labels) [
      | inl h ↦ inr (
        (λ ((nonempty, all), _). none_contained labels nonempty (rw h at all)),
        notify_labels-unknown labels h,
      )
      | inr (known, h) ↦ elim (Bool-cases (match_identities labels known)) [
        | inr m ↦ inr (
          (λ ((nonempty, all), _).
              let q : match_identities labels known ≡ true =
                (match_identities_iff labels known).1 (nonempty, rw h at all) in
              cc),
          notify_labels-known labels known h ∙ (rw m refl),
        )
        | inl m ↦ elim (notify_each-cases labels) [
          | inl (some_listed, stuck) ↦ inl (
            (rw h ((match_identities_iff labels known).0 m), some_listed),
            notify_labels-known labels known h ∙ (rw m stuck),
          )
          | inr (none_listed, ends) ↦ inr (
            (λ (_, some_listed). some_listed none_listed),
            notify_labels-known labels known h ∙ (rw m ends),
          )
        ]
      ]
    ]

-- Nothing was sent, the pool has the store's lists, and the run ends as the addressees have it.
pub record IsStalled {E : Type 0} (read : String → Option String) (labels : List String)
    (s : Kvms E) (o : Outcome (Kvms E) (Unit {0})) : Type 0 where
  pub after : Kvms E
  pub silent : after.sent ≡ s.sent
  pub current : IsCurrent read after
  pub ends : IsStuckOn labels after o

-- Before InitServer has made the policy channel, on a healthy store that keeps etcd's promises,
-- where the policy's spec can be cloned, no label in the store has a slash, every stored list can
-- be read, each label known before has a stored list and the order in which the run ranges over a
-- map adds no entry: the update for a policy sends nothing, and leaves the pool with the store's
-- list, where there is one, under every known label. If then the node selector has a label, every
-- one is known and the pool lists some identity under them, the update waits for ever; otherwise it
-- returns.
pub update_host_security_policies-IsStalled :
    {E : Type 0} (d : Driver E) (healthy : IsHealthy d) (lawful : IsLawful d)
    (range : GoMap String String → GoMap String String)
    (reorders : (P : String × String → Type 0) (m : GoMap String String)
      → All P m
      → All P (range m))
    (event : K8sKubeArmorHostPolicyEvent) (json : JsonCodec HostSecuritySpec)
    (spec : HostSecuritySpec) (s : Kvms E)
    → clone json event.object.spec ≡ ok spec
    → IsPlain (lawful.read s.etcd)
    → IsReadable (lawful.read s.etcd)
    → All (IsListed (lawful.read s.etcd)) (value_or s.etcd_ew_labels [])
    → s.policy_chan ≡ unmade
    → IsStalled
        (lawful.read s.etcd)
        (label_texts (value_or spec.node_selector.match_labels []))
        s
        (update_host_security_policies d range json event s)
unfolding update_host_security_policies
update_host_security_policies-IsStalled d healthy lawful range reorders event json spec s h plain
      readable known nil =
    let labels = label_texts (value_or spec.node_selector.match_labels []) in
    let both =
      Ensures-both _ _ (get_all_etcd_ew_labels d range s)
        (get_all_etcd_ew_labels-returns d healthy lawful range reorders (λ c. c ≡ unmade) s plain
          readable known nil)
        (get_all_etcd_ew_labels-IsRefreshed d lawful range s plain) in
    elim (Outcome-cases (get_all_etcd_ew_labels d range s)) [
      | inr (e, t, crashed) ↦ absurd (rw crashed at both)
      | inl (u, t, read) ↦
          let ((_, still_nil), refreshed) : ((t.etcd ≡ s.etcd) × (t.policy_chan ≡ unmade))
              × IsRefreshed (lawful.read s.etcd) s t =
            rw read at both in
          record {
            after = t;
            silent = refreshed.messages;
            current = refreshed.fresh;
            ends = rw (h, read) (notify_labels-IsStuckOn event t still_nil d range labels);
          }
    ]
