-- ===== src/Tests/JointRuns.antt =====
-- Runs of the operator and then the core daemon on one store in memory.
use kvm_service.Prelude.{
  false, subst, starts_with, ℕ, suc, String, [], ◌∷◌, some, true, ◌≡◌, ◌≢◌, ◌∙◌, refl, GoMap,
  lookup, contains, keys, ◌==◌, ==_refl, nat_eq, string_eq, ==_cases, ==_of_ne, inl, inr, or_true,
  ne_of_==, arith,
}
use kvm_service.Go.Outcome.{Ensures, Returns}
use kvm_service.Go.Strings.{split}
use kvm_service.Go.Json.{marshal_ids}
use kvm_service.Service.Server.{last_of_key}
use kvm_service.Service.Server.Reads.{IsBare}
use kvm_service.Service.Server.Departure.{list_key}
use kvm_service.Service.Core.Reach.Slashed.{update_host_security_policies-crashes}
use kvm_service.Common.Match.{clone}
use kvm_service.Types.Workloads.{ExternalWorkloadSecurityPolicy}
use kvm_service.Etcd.Memory.{memory, memory-IsLawful, memory-IsHealthy}
use kvm_service.Operator.State.{Operator}
use kvm_service.Operator.Identities.{is_free}
use mathlib.Core.Bool.{false≢true}
use kvm_service.Operator.Labels.{get_ew_identity_from_name}
use kvm_service.Operator.Labels.Published.{identities_of}
use kvm_service.Operator.Labels.Frame.{convert_labels_to_str-single}
use kvm_service.Operator.Events.{contains_policy, replace_policy, label_of, added, modified}
use kvm_service.Operator.Events.Relabel.{IsListedUnder, modified-IsListedUnder}
use kvm_service.Operator.Events.Admission.{IsKept}
use kvm_service.Service.Core.{update_host_security_policies}
use kvm_service.Service.Core.Reach.{IsOrder}
use kvm_service.Service.Core.Reach.Admitted.{IsReached, added-IsReached}
use kvm_service.Tests.ServiceRuns.{listed, service, all-IsReceived}
use kvm_service.Tests.CoreRuns.{
  published, as_is, spec, event, codec, last_of_list, published-IsPlain, published-IsReadable,
}

-- An operator that has published the list of one label.
abbrev operator : Operator (GoMap String String)
operator = record {
  etcd = published;
  etcd_client = record { lease_response = 7 };
  external_workload_security_policies = [];
  map_identity_to_ewname = [];
  map_ewname_to_identity = [];
  map_identity_to_label = [];
  map_label_to_identities = ("a=b", listed) ∷ [];
  drawn = 0;
}

abbrev policy : ExternalWorkloadSecurityPolicy
policy = record {
  metadata = record {
    node_selector = record { match_labels = some (("a", "b") ∷ []); identities = [] };
    name = "db";
  };
}

-- The numbers 7, 8, 9, … are drawn.
abbrev counting : ℕ → ℕ
counting n = suc (suc (suc (suc (suc (suc (suc n))))))

contains-keys :
    (m : GoMap String String) (k v : String) → lookup k m ≡ some v → contains (keys m) k ≡ true
unfolding lookup contains
contains-keys [] k v h = cc
contains-keys ((j, w) ∷ m) k v h = elim (==_cases j k) [
  | inl same ↦ rw (same, ==_refl k)
  | inr other ↦ rw (contains-keys m k v (rw (==_of_ne j k other) at h)) (or_true (j == k))
]

as_is-IsOrder : IsOrder as_is
as_is-IsOrder = record { adds_none = λ P m all. all; drops_none = contains-keys }

operator-IsKept : IsKept memory-IsLawful.read "a=b" operator
unfolding memory-IsLawful lookup contains
operator-IsKept = record { small = λ i h. ground arith; published = λ i h. refl }

added-IsReached_example :
    Ensures
      (λ _ o'.
        Ensures
          (λ _ t. IsReached event "db" o' t)
          (update_host_security_policies memory as_is codec event
            (record (service published) { etcd = o'.etcd })))
      (added memory counting 2 policy operator)
unfolding memory-IsLawful clone is_free lookup contains_policy
added-IsReached_example =
    added-IsReached memory memory-IsHealthy memory-IsLawful as_is as_is-IsOrder counting 2 0 policy
      "a" "b" operator event codec spec (service published) refl last_of_list (omega arith) refl
      refl operator-IsKept refl refl published-IsPlain published-IsReadable tt all-IsReceived

-- The workload `vm` of identity 5, listed under its label.
abbrev with_vm : Operator (GoMap String String)
with_vm = record operator {
  external_workload_security_policies =
      record {
        metadata = record {
          node_selector = record { match_labels = some (("a", "b") ∷ []); identities = [] };
          name = "vm";
        };
      }
      ∷ [];
  map_identity_to_ewname = (5, "vm") ∷ [];
  map_ewname_to_identity = ("vm", 5) ∷ [];
  map_identity_to_label = (5, "a=b") ∷ [];
}

abbrev relabelled : ExternalWorkloadSecurityPolicy
relabelled = record {
  metadata = record {
    node_selector = record { match_labels = some (("a", "c") ∷ []); identities = [] };
    name = "vm";
  };
}

vm-IsListedUnder : IsListedUnder memory-IsLawful.read 5 "a=b" with_vm
unfolding memory-IsLawful lookup contains
vm-IsListedUnder = record { held = refl; published = refl }

new_label : label_of relabelled ≡ "a=c"
new_label = convert_labels_to_str-single "a" "c"

label_differs : "a=b" ≢ label_of relabelled
label_differs e = ne_of_== "a=b" "a=c" refl (e ∙ new_label)

not_listed_anew : contains (identities_of (label_of relabelled) with_vm) 5 ≡ true → ⊥
unfolding lookup contains
not_listed_anew h = false≢true (rw new_label at h)

modified-IsListedUnder_example :
    Ensures
      (λ _ t.
        IsListedUnder memory-IsLawful.read 5 "a=b" t
        × IsListedUnder memory-IsLawful.read 5 (label_of relabelled) t)
      (modified memory counting 2 relabelled with_vm)
unfolding get_ew_identity_from_name replace_policy lookup memory-IsLawful contains
modified-IsListedUnder_example =
    modified-IsListedUnder memory memory-IsHealthy memory-IsLawful counting 2 relabelled "a=b"
      (relabelled ∷ []) with_vm refl label_differs vm-IsListedUnder
      (λ h. absurd (not_listed_anew h))

-- The label `app.kubernetes.io/name=web` is published.
abbrev slashed : GoMap String String
slashed = (list_key "app.kubernetes.io/name=web", marshal_ids (some listed)) ∷ []

slashed_short : last_of_key (list_key "app.kubernetes.io/name=web") ≡ "name=web"
unfolding last_of_key split
slashed_short = refl

slashed_list :
    lookup (list_key "app.kubernetes.io/name=web") slashed ≡ some (marshal_ids (some listed))
unfolding lookup
slashed_list = refl

slashed-IsBare :
    IsBare (λ j. lookup j slashed) (list_key (last_of_key (list_key "app.kubernetes.io/name=web")))
unfolding lookup
slashed-IsBare = rw slashed_short (λ j below.
    let other : list_key "app.kubernetes.io/name=web" ≢ j =
      λ e. let q = subst (λ k. starts_with k (list_key "name=web") ≡ false) e refl in cc in
    rw (==_of_ne _ j other) refl)

update_host_security_policies-crashes_example :
    Returns (λ _ _. ⊥) (update_host_security_policies memory as_is codec event (service slashed))
unfolding memory-IsLawful
update_host_security_policies-crashes_example =
    update_host_security_policies-crashes memory memory-IsHealthy memory-IsLawful as_is
      as_is-IsOrder codec event "app.kubernetes.io/name=web" (marshal_ids (some listed))
      (service slashed) slashed_list slashed-IsBare
