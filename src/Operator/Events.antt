-- ===== src/Operator/Events.antt =====
-- The handler of external workload events (src/operator/core/crdHandler.go).
pub mod Policies
pub mod Inverse
pub mod Consistent
pub mod Progress
pub mod Frame
pub mod Admission
pub mod Relabel
pub mod ZeroIdentity
use kvm_service.Prelude.{
  ℕ, suc, String, List, [], ◌∷◌, ◌++◌, Option, none, some, Bool, true, false, ◌&&◌, ◌||◌, not,
  GoMap, lookup, ◌==◌, nat_eq, string_eq, length, if◌then◌else◌,
}
use kvm_service.Go.Outcome.{Outcome, Prog, done, pure, modify, gets, for_each, ◌>>=◌, ◌>>◌}
use kvm_service.Types.Events.{NodeSelectorType}
use kvm_service.Types.Workloads.{
  ExternalWorkloadMetadata, ExternalWorkloadSecurityPolicy, K8sKubeArmorExternalWorkloadPolicyEvent,
}
use kvm_service.Etcd.Driver.{Driver}
use kvm_service.Operator.State.{Operator}
use kvm_service.Operator.Labels.{
  convert_labels_to_str, get_ew_identity_from_name, update_identity_labels_map,
  unmap_label_identity,
}
use kvm_service.Operator.Identities.{generate_external_workload_identity}

-- Every entry of the first map stands in the second.
includes : GoMap String String → GoMap String String → Bool
includes [] m = true
includes ((k, v) ∷ l) m = elim (lookup k m) [ none ↦ false | some w ↦ v == w && includes l m ]

-- `reflect.DeepEqual` on maps: a nil map is not an empty one.
unfoldable pub maps_equal : Option (GoMap String String) → Option (GoMap String String) → Bool
unfolding includes
maps_equal none none = true
maps_equal (some a) (some b) = length a == length b && includes a b
maps_equal none (some b) = false
maps_equal (some a) none = false

unfoldable pub texts_equal : List String → List String → Bool
texts_equal [] [] = true
texts_equal (x ∷ xs) (y ∷ ys) = x == y && texts_equal xs ys
texts_equal [] (y ∷ ys) = false
texts_equal (x ∷ xs) [] = false

-- `reflect.DeepEqual` on policies.
unfoldable pub deep_equal : ExternalWorkloadSecurityPolicy → ExternalWorkloadSecurityPolicy → Bool
unfolding maps_equal texts_equal
deep_equal p q =
    maps_equal p.metadata.node_selector.match_labels q.metadata.node_selector.match_labels
    && texts_equal p.metadata.node_selector.identities q.metadata.node_selector.identities
    && p.metadata.name == q.metadata.name

-- `kl.ContainsElement(dm.ExternalWorkloadSecurityPolicies, secPolicy)`
unfoldable pub contains_policy :
    List ExternalWorkloadSecurityPolicy → ExternalWorkloadSecurityPolicy → Bool
unfolding deep_equal
contains_policy [] policy = false
contains_policy (p ∷ ps) policy = deep_equal p policy || contains_policy ps policy

-- A policy before those that a search went on to.
abbrev pub behind :
    ExternalWorkloadSecurityPolicy
    → Option (List ExternalWorkloadSecurityPolicy)
    → Option (List ExternalWorkloadSecurityPolicy)
behind p none = none
behind p (some ps) = some (p ∷ ps)

-- The policies with the first of the name replaced; none where there is none of the name.
unfoldable pub replace_policy :
    List ExternalWorkloadSecurityPolicy
    → ExternalWorkloadSecurityPolicy
    → Option (List ExternalWorkloadSecurityPolicy)
replace_policy [] policy = none
replace_policy (p ∷ ps) policy =
    if p.metadata.name == policy.metadata.name
    then some (policy ∷ ps)
    else behind p (replace_policy ps policy)

-- The policies without the first that is deeply equal.
unfoldable pub remove_policy :
    List ExternalWorkloadSecurityPolicy
    → ExternalWorkloadSecurityPolicy
    → Option (List ExternalWorkloadSecurityPolicy)
remove_policy [] policy = none
remove_policy (p ∷ ps) policy =
    if deep_equal policy p then some ps else behind p (remove_policy ps policy)

-- `secPolicy` of the event.
unfoldable pub policy_of : K8sKubeArmorExternalWorkloadPolicyEvent → ExternalWorkloadSecurityPolicy
policy_of event = record {
  metadata = record {
    node_selector = record { match_labels = event.object.metadata.labels; identities = [] };
    name = event.object.metadata.name;
  };
}

abbrev pub label_of : ExternalWorkloadSecurityPolicy → String
label_of policy = convert_labels_to_str policy.metadata.node_selector.match_labels

module _ {E : Type 0} (d : Driver E) (random : ℕ → ℕ) (rounds : ℕ) where
  abbrev set_policies : List ExternalWorkloadSecurityPolicy → Prog (Operator E) (Unit {0})
  set_policies ps = modify (λ s. record s { external_workload_security_policies = ps })

  unfoldable pub added : ExternalWorkloadSecurityPolicy → Prog (Operator E) (Unit {0})
  added policy s =
      if contains_policy s.external_workload_security_policies policy
      then done tt s
      else (do
        set_policies (s.external_workload_security_policies ++ policy ∷ [])
        identity ← generate_external_workload_identity d random rounds policy.metadata.name
        update_identity_labels_map d identity (label_of policy))
          s

  unfoldable pub modified : ExternalWorkloadSecurityPolicy → Prog (Operator E) (Unit {0})
  modified policy s = elim (replace_policy s.external_workload_security_policies policy) [
    | none ↦ done tt s
    | some ps ↦
        (do
          set_policies ps
          identity ← gets (get_ew_identity_from_name policy.metadata.name)
          update_identity_labels_map d identity (label_of policy))
          s
  ]

  unfoldable pub deleted : ExternalWorkloadSecurityPolicy → Prog (Operator E) (Unit {0})
  deleted policy s = elim (remove_policy s.external_workload_security_policies policy) [
    | none ↦ done tt s
    | some ps ↦
        (do
          set_policies ps
          identity ← gets (get_ew_identity_from_name policy.metadata.name)
          unmap_label_identity d identity policy.metadata.name (label_of policy))
          s
  ]

  -- `event.Object.Status.Status != "" && event.Object.Status.Status != "OK"`
  unfoldable pub handle_event :
      K8sKubeArmorExternalWorkloadPolicyEvent → Prog (Operator E) (Unit {0})
  handle_event event s =
      if not (event.object.status.status == "") && not (event.object.status.status == "OK")
      then done tt s
      else if event.type == "ADDED"
      then added (policy_of event) s
      else if event.type == "MODIFIED"
      then modified (policy_of event) s
      else if event.type == "DELETED"
      then deleted (policy_of event) s
      else done tt s

  -- The events of one watch connection, up to the decoder's error or end.
  unfoldable pub handle_events :
      List K8sKubeArmorExternalWorkloadPolicyEvent → Prog (Operator E) (Unit {0})
  handle_events events = for_each events handle_event
