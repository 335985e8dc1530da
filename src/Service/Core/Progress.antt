-- ===== src/Service/Core/Progress.antt =====
-- When the update for a policy returns.
use mathlib.Core.Option.{get_or as value_or}
use kvm_service.Etcd.Entries.{not_empty, All-response_map}
use kvm_service.Prelude.{
  String, List, [], ◌∷◌, Option, none, some, true, ◌≡◌, ◌≢◌, refl, sym, ◌∙◌, ap, GoMap, lookup,
  lookup-entries, All, All-map, All-append, keys, map, ◌<>◌, string_eq, starts_with,
  starts_with_refl, starts_with-first, Option-cases, inl, inr,
}
use kvm_service.Constants.{kvm_opr_label_to_identities}
use kvm_service.Go.Outcome.{ok, Ensures}
use kvm_service.Go.Outcome.Rules.{
  Ensures-continue, Ensures-Returns, Ensures-weaken, Ensures-for_each,
}
use kvm_service.Go.Json.{unmarshal_ids}
use kvm_service.Etcd.Driver.{Driver, IsLawful, IsHealthy}
use kvm_service.Etcd.Client.{response_map, raw_response}
use kvm_service.Service.State.{Kvms, PolicyChan}
use kvm_service.Service.Sends.{IsReceived}
use kvm_service.Service.Writes.{get_or_fatal-done, get_raw_or_fatal-done, pairs}
use kvm_service.Service.Server.{for_response, last_of_key}
use kvm_service.Service.Server.Reads.{read-of_lookup}
use kvm_service.Types.Events.{HostSecuritySpec, K8sKubeArmorHostPolicyEvent}
use kvm_service.Common.Match.{JsonCodec, clone}
use kvm_service.Service.Core.Delivery.{
  HasNotified, IsCurrent, notify_labels-IsReceived, update_host_security_policies-HasNotified,
}
use kvm_service.Service.Core.{
  label_texts, notify_labels, update_host_security_policies, append_nil, store_identities,
  refresh_label, gather_labels, get_all_etcd_ew_labels,
}
use kvm_service.Service.Core.Pool.{IsPlain}

-- Every list that is stored under a label can be read.
abbrev pub IsReadable : (String → Option String) → Type 0
IsReadable read =
    (key value : String)
    → starts_with key kvm_opr_label_to_identities ≡ true
    → read key ≡ some value
    → unmarshal_ids value ≢ none

All-of_map :
    {A B : Type 0} (Q : B → Type 0) (f : A → B) (xs : List A)
    → All (λ x. Q (f x)) xs
    → All Q (map f xs)
All-of_map Q f [] all = tt
All-of_map Q f (x ∷ xs) (here, all) = (here, All-of_map Q f xs all)

All-append_nil :
    (Q : String → Type 0) (old : Option (List String)) (ls : List String)
    → All Q (value_or old [])
    → All Q ls
    → All Q (value_or (append_nil old ls) [])
All-append_nil Q none [] all all' = tt
All-append_nil Q none (l ∷ ls) all all' = all'
All-append_nil Q (some old) ls all all' = All-append Q old ls all all'

-- The store has a list under the label.
pub record IsListed (read : String → Option String) (label : String) : Type 0 where
  pub value : String
  pub stored : read (kvm_opr_label_to_identities <> label) ≡ some value

module _ {E : Type 0} (d : Driver E) (healthy : IsHealthy d) (lawful : IsLawful d) where
  -- Each pair of an answer is stored under the prefix.
  pub pairs-stored :
      (key : String) (e : E)
      → All
          (λ y. (starts_with y.0 key ≡ true) × (lawful.read e y.0 ≡ some y.1))
          (pairs d healthy key e)
  pairs-stored key e =
      let answer = (healthy.get_ok key e).1 in
      All-map _ _
        (λ y found.
          read-of_lookup (lawful.read e) key (some (pairs d healthy key e))
            (λ k. lawful.get-read key e _ k answer) y.0 y.1 found)
        (pairs d healthy key e) (lookup-entries _ (lawful.get-distinct key e _ answer))

module _ {E : Type 0} (d : Driver E) (healthy : IsHealthy d) (lawful : IsLawful d)
    (range : GoMap String String → GoMap String String) (C : PolicyChan → Type 0) (e : E)
    (readable : IsReadable (lawful.read e)) where
  abbrev At : Kvms E → Type 0
  At s = (s.etcd ≡ e) × C s.policy_chan

  store_identities-returns :
      (entry : String × String) (s : Kvms E)
      → unmarshal_ids entry.1 ≢ none
      → At s
      → Ensures (λ _ t. At t) (store_identities entry s)
  unfolding store_identities
  store_identities-returns (key, value) s parses at_e = elim (Option-cases (unmarshal_ids value)) [
    | inl h ↦ absurd (parses h)
    | inr (ids, h) ↦ rw (h, store_identities) at_e
  ]

  response-returns :
      (kvs : GoMap String String) (s : Kvms E)
      → All (λ y. unmarshal_ids y.1 ≢ none) kvs
      → kvs ≢ []
      → At s
      → Ensures (λ _ t. At t) (for_response (raw_response kvs) store_identities s)
  unfolding for_response raw_response
  response-returns [] s parse nonempty at_e = absurd (nonempty refl)
  response-returns (kv ∷ kvs) s parse nonempty at_e =
      Ensures-for_each At (λ y. unmarshal_ids y.1 ≢ none) (kv ∷ kvs) store_identities s
        (λ y t h a. store_identities-returns y t h a) parse at_e

  refresh_label-returns :
      (label : String) (s : Kvms E)
      → IsListed (lawful.read e) label
      → At s
      → Ensures (λ _ t. At t) (refresh_label d range label s)
  unfolding refresh_label
  refresh_label-returns label s listed at_e =
      rw (get_raw_or_fatal-done d healthy (kvm_opr_label_to_identities <> label) s) (
        response-returns (pairs d healthy (kvm_opr_label_to_identities <> label) s.etcd) s
          (All-map _ _
            (λ y (under, stored).
              readable y.0 y.1 (starts_with-first kvm_opr_label_to_identities label y.0 under)
                (ap (λ x. lawful.read x y.0) (sym at_e.0) ∙ stored))
            _ (pairs-stored d healthy lawful (kvm_opr_label_to_identities <> label) s.etcd))
          nonempty at_e)
    where
      nonempty : pairs d healthy (kvm_opr_label_to_identities <> label) s.etcd ≢ []
      nonempty h =
          let key = kvm_opr_label_to_identities <> label in
          let found : lookup key (pairs d healthy key s.etcd) ≡ some listed.value =
            lawful.get-read key s.etcd _ key (healthy.get_ok key s.etcd).1
            ∙ (rw (starts_with_refl key, at_e.0) listed.stored) in
          not_empty key listed.value _ found h

-- The labels that are known after the labels of the store were gathered are listed, if those known
-- before were: a reordering has no entry of its own.
module _ {E : Type 0} (d : Driver E) (healthy : IsHealthy d) (lawful : IsLawful d)
    (range : GoMap String String → GoMap String String)
    (reorders : (P : String × String → Type 0) (m : GoMap String String)
      → All P m
      → All P (range m)) where
  gather_labels-IsListed :
      (C : PolicyChan → Type 0) (s : Kvms E)
      → IsPlain (lawful.read s.etcd)
      → All (IsListed (lawful.read s.etcd)) (value_or s.etcd_ew_labels [])
      → C s.policy_chan
      → Ensures
          (λ _ t.
            ((t.etcd ≡ s.etcd) × C t.policy_chan)
            × All (IsListed (lawful.read s.etcd)) (value_or t.etcd_ew_labels []))
          (gather_labels d range s)
  unfolding gather_labels
  gather_labels-IsListed C s plain known received =
      let read = lawful.read s.etcd in
      let entries =
        value_or (response_map (pairs d healthy kvm_opr_label_to_identities s.etcd)) [] in
      let listed : All (λ y. IsListed read (last_of_key y.0)) entries = All-response_map _ _ (
        All-map _ _
          (λ y (under, stored). record {
            value = y.1;
            stored = ap read (sym (plain y.0 y.1 under stored)) ∙ stored;
          })
          _ (pairs-stored d healthy lawful kvm_opr_label_to_identities s.etcd)) in
      rw (get_or_fatal-done d healthy kvm_opr_label_to_identities s) (
        (refl, received),
        All-append_nil (IsListed read) s.etcd_ew_labels (map last_of_key (keys (range entries)))
            known
            (All-of_map (IsListed read) last_of_key (keys (range entries)) (
              All-of_map (λ k. IsListed read (last_of_key k)) (λ (k, _). k) (range entries)
                (reorders (λ y. IsListed read (last_of_key y.0)) entries listed))),
      )

  pub get_all_etcd_ew_labels-returns :
      (C : PolicyChan → Type 0) (s : Kvms E)
      → IsPlain (lawful.read s.etcd)
      → IsReadable (lawful.read s.etcd)
      → All (IsListed (lawful.read s.etcd)) (value_or s.etcd_ew_labels [])
      → C s.policy_chan
      → Ensures (λ _ t. (t.etcd ≡ s.etcd) × C t.policy_chan) (get_all_etcd_ew_labels d range s)
  unfolding get_all_etcd_ew_labels
  get_all_etcd_ew_labels-returns C s plain readable known received =
      Ensures-continue
        (λ _ t.
          ((t.etcd ≡ s.etcd) × C t.policy_chan)
          × All (IsListed (lawful.read s.etcd)) (value_or t.etcd_ew_labels []))
        _ (gather_labels d range s) _ (gather_labels-IsListed C s plain known received)
        (λ _ s' (same, all).
          Ensures-for_each (λ t. (t.etcd ≡ s.etcd) × C t.policy_chan)
            (IsListed (lawful.read s.etcd)) (value_or s'.etcd_ew_labels []) (refresh_label d range)
            s'
            (λ l t listed at_e.
              refresh_label-returns d healthy lawful range C s.etcd readable l t listed at_e)
            all same)

  -- On a healthy store that keeps etcd's promises, where the policy's spec can be cloned, no label
  -- in the store has a slash, every stored list can be read, each label known before has a stored
  -- list, the order in which the run ranges over a map adds no entry, and the policy channel is
  -- made and streams receive every message, the update for a policy returns. It has then sent one
  -- message for each identity that the pool lists under the labels of the node selector, label by
  -- label, if the selector has a label and every one is known, and nothing otherwise; nothing sent
  -- before is lost, and the pool has the store's list, where there is one, under every known label.
  pub update_host_security_policies-returns :
      (event : K8sKubeArmorHostPolicyEvent) (json : JsonCodec HostSecuritySpec)
      (spec : HostSecuritySpec) (s : Kvms E)
      → clone json event.object.spec ≡ ok spec
      → IsPlain (lawful.read s.etcd)
      → IsReadable (lawful.read s.etcd)
      → All (IsListed (lawful.read s.etcd)) (value_or s.etcd_ew_labels [])
      → IsReceived s.policy_chan
      → Ensures
          (λ _ t.
            HasNotified event (label_texts (value_or spec.node_selector.match_labels [])) s.sent t
            × IsCurrent (lawful.read s.etcd) t)
          (update_host_security_policies d range json event s)
  unfolding update_host_security_policies
  update_host_security_policies-returns event json spec s h plain readable known received =
      let labels = label_texts (value_or spec.node_selector.match_labels []) in
      Ensures-Returns _ (λ _ _. Unit {0}) (update_host_security_policies d range json event s)
        (update_host_security_policies-HasNotified d range event lawful json spec s h plain)
        (rw (h, update_host_security_policies)
          (Ensures-continue (λ _ t. (t.etcd ≡ s.etcd) × IsReceived t.policy_chan) _
            (get_all_etcd_ew_labels d range s) _
            (get_all_etcd_ew_labels-returns IsReceived s plain readable known received)
            (λ _ s' (_, received').
              Ensures-weaken _ _ (notify_labels d range event labels s')
                (notify_labels-IsReceived event d range labels s' received') (λ _ _ _. tt))))
