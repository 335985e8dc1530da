-- ===== src/Service/Core.antt =====
-- The core daemon (src/service/core/kvmsUpdate.go): it reads the labels that the operator published
-- and sends host policies to the agents of the labels that a policy selects.
pub mod Pool
pub mod Progress
pub mod Delivery
pub mod Reach
pub mod Unwritten
pub mod Stalled
use mathlib.Core.Option.{get_or as value_or}
use kvm_service.Prelude.{
  ℕ, ◌<◌, String, List, [], ◌∷◌, ◌++◌, map, Option, none, some, Bool, true, false, ◌&&◌, not, GoMap,
  lookup, insert, length, ltb, keys, ◌<>◌, ◌==◌, nat_eq, string_eq, if◌then◌else◌,
}
use kvm_service.Constants.{kvm_opr_label_to_identities}
use kvm_service.Go.Outcome.{
  Prog, Outcome, done, exit, panicked, fatal, Result, ok, err, pure, stop, gets, modify, fatal_on,
  for_each, continue, ◌>>=◌, ◌>>◌,
}
use kvm_service.Go.Json.{unmarshal_ids}
use kvm_service.Common.Match.{JsonCodec, clone, match_identities}
use kvm_service.Types.Events.{
  HostSecuritySpec, K8sKubeArmorHostPolicyEvent, K8sKubeArmorHostPolicyEventWithIdentity,
}
use kvm_service.Etcd.Driver.{Driver}
use kvm_service.Service.State.{Kvms, send}
use kvm_service.Service.Server.{get_or_fatal, get_raw_or_fatal, for_response, last_of_key}

-- `append` to a slice that may be nil.
abbrev pub append_nil : Option (List String) → List String → Option (List String)
append_nil none [] = none
append_nil none (l ∷ ls) = some (l ∷ ls)
append_nil (some old) ls = some (old ++ ls)

-- The body of the loop over `data.Kvs` in GetAllEtcdEWLabels.
unfoldable pub store_identities : {E : Type 0} → String × String → Prog (Kvms E) (Unit {0})
store_identities (key, value) = elim (unmarshal_ids value) [
  | none ↦ stop fatal
  | some arr ↦ modify (λ s. record s {
    map_label_to_identities = insert (last_of_key key) (value_or arr []) s.map_label_to_identities;
  })
]

-- PassOverToKVMSAgent: one event for each identity.
unfoldable pub pass_over_to_kvms_agent :
    {E : Type 0} → K8sKubeArmorHostPolicyEvent → List ℕ → Prog (Kvms E) (Unit {0})
pass_over_to_kvms_agent event identities =
    for_each identities
      (λ identity. send (record { event = event; identity = identity; close_connection = false }))

unfoldable pub get_identity_from_label_pool : {E : Type 0} → String → Kvms E → List ℕ
get_identity_from_label_pool label s = value_or (lookup label s.map_label_to_identities) []

-- `k+"="+v` for the entries, in the order of this run.
unfoldable pub label_texts : GoMap String String → List String
label_texts [] = []
label_texts ((k, v) ∷ m) = (k <> "=" <> v) ∷ label_texts m

-- `range m` is the order in which this run ranges over the map that EtcdGet returned.
module _ {E : Type 0} (d : Driver E) (range : GoMap String String → GoMap String String) where
  -- The loop over the labels that were gathered, those of earlier calls included.
  unfoldable pub refresh_label : String → Prog (Kvms E) (Unit {0})
  refresh_label label = do
    response ← get_raw_or_fatal d (kvm_opr_label_to_identities <> label)
    for_response response store_identities

  unfoldable pub gather_labels : Prog (Kvms E) (Unit {0})
  gather_labels = do
    etcd_labels ← get_or_fatal d kvm_opr_label_to_identities
    modify (λ s. record s {
      etcd_ew_labels =
          append_nil s.etcd_ew_labels (map last_of_key (keys (range (value_or etcd_labels []))));
    })

  unfoldable pub get_all_etcd_ew_labels : Prog (Kvms E) (Unit {0})
  get_all_etcd_ew_labels = do
    gather_labels
    labels ← gets (λ s. value_or s.etcd_ew_labels [])
    for_each labels refresh_label

  -- The body of the loop over the labels of a policy that matched.
  unfoldable pub notify_label : K8sKubeArmorHostPolicyEvent → String → Prog (Kvms E) (Unit {0})
  notify_label event label s =
      let identities = get_identity_from_label_pool label s in
      if ltb 0 (length identities) then pass_over_to_kvms_agent event identities s else done tt s

  -- What UpdateHostSecurityPolicies does once the labels are read.
  unfoldable pub notify_labels :
      K8sKubeArmorHostPolicyEvent → List String → Prog (Kvms E) (Unit {0})
  notify_labels event labels s = elim s.etcd_ew_labels [
    | none ↦ done tt s
    | some known ↦
        if match_identities labels known then for_each labels (notify_label event) s else done tt s
  ]

  unfoldable pub update_host_security_policies :
      JsonCodec HostSecuritySpec → K8sKubeArmorHostPolicyEvent → Prog (Kvms E) (Unit {0})
  update_host_security_policies json event = do
    spec ← fatal_on (clone json event.object.spec)
    get_all_etcd_ew_labels
    notify_labels event (label_texts (value_or spec.node_selector.match_labels []))

  -- One event of WatchHostSecurityPolicies.
  unfoldable pub handle_event :
      JsonCodec HostSecuritySpec → K8sKubeArmorHostPolicyEvent → Prog (Kvms E) (Unit {0})
  handle_event json event s =
      if not (event.object.status.status == "") && not (event.object.status.status == "OK")
      then done tt s
      else update_host_security_policies json event s
