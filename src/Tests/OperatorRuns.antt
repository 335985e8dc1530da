-- ===== src/Tests/OperatorRuns.antt =====
-- Runs of the operator (src/operator/core) on a store in memory.
use kvm_service.Go.Outcome.{continue}
use kvm_service.Operator.State.{destroy_kvms_operator}
use kvm_service.Constants.{kvm_opr_label_to_identities}
use kvm_service.Prelude.{if◌then◌else◌, ◌<>◌, ◌==◌, none, string_eq}
use kvm_service.Operator.Labels.Published.{identities_of}
use kvm_service.Operator.Daemon.Late.{late_list, destroy_kvms_operator-IsUndone}
use kvm_service.Prelude.{
  ℕ, zero, suc, ◌<◌, String, List, [], ◌∷◌, some, true, false, ◌≡◌, ◌≢◌, refl, inr, GoMap, lookup,
  contains, length, get_or, nat_eq, string_eq, arith,
}
use kvm_service.Go.Outcome.{Returns, Ensures}
use kvm_service.Go.Slice.{swapped, remove_identity, remove_from}
use kvm_service.Types.Workloads.{K8sKubeArmorExternalWorkloadPolicyEvent}
use kvm_service.Etcd.Memory.{memory, memory-IsLawful, memory-IsHealthy}
use kvm_service.Operator.State.{Operator}
use kvm_service.Operator.Identities.{is_free, generate_external_workload_identity}
use kvm_service.Operator.Identities.Issue.{IsIssued, generate-IsIssued}
use kvm_service.Operator.Labels.{
  get_ew_identity_from_name, update_identity_labels_map, unmap_label_identity,
}
use kvm_service.Operator.Labels.Published.{IsLabelled, update_identity_labels_map-IsLabelled}
use kvm_service.Operator.Labels.Removal.{IsUnmapped, unmap_label_identity-IsUnmapped}
use kvm_service.Operator.Events.{handle_event, policy_of}
use kvm_service.Operator.Events.Progress.{IsFeasible, handle_event-returns}
use kvm_service.Operator.Events.Inverse.{Consistent}
use kvm_service.Operator.Events.Consistent.{handle_event-Consistent}

abbrev listed : List ℕ
listed = 3 ∷ 5 ∷ 9 ∷ []

-- An operator with one workload `vm`, of identity 5 under the label `a=b`.
abbrev one_vm : Operator (GoMap String String)
one_vm = record {
  etcd = [];
  etcd_client = record { lease_response = 7 };
  external_workload_security_policies =
      record {
        metadata = record {
          node_selector = record { match_labels = some (("a", "b") ∷ []); identities = [] };
          name = "vm";
        };
      }
      ∷ [];
  map_identity_to_ewname = (5, "vm") ∷ [];
  map_ewname_to_identity = ("vm", 5) ∷ [];
  map_identity_to_label = (5, "a=b") ∷ [];
  map_label_to_identities = ("a=b", listed) ∷ [];
  drawn = 0;
}

-- An operator that has just started.
abbrev pub fresh : Operator (GoMap String String)
fresh = record one_vm {
  external_workload_security_policies = [];
  map_identity_to_ewname = [];
  map_ewname_to_identity = [];
  map_identity_to_label = [];
  map_label_to_identities = [];
}

abbrev pub event_of : String → String → K8sKubeArmorExternalWorkloadPolicyEvent
event_of type name = record {
  type = type;
  object = record {
    metadata = record { name = name; labels = some (("a", "b") ∷ []) };
    spec = record { ipv4_alloc_cidr = ""; ipv6_alloc_cidr = "" };
    status = record { id = 0; ip = ""; status = "" };
  };
}

-- The numbers 5, 6, 7, … are drawn.
abbrev pub counting : ℕ → ℕ
counting n = suc (suc (suc (suc (suc n))))

fresh-Consistent : Consistent fresh
unfolding lookup contains
fresh-Consistent = record {
  inverse = λ n i. (λ h. cc, λ h. cc);
  named = λ n i h. cc;
  in_range = λ n i h. cc;
  complete = λ n. refl;
  distinct = tt;
}

handle_event-Consistent_example :
    Returns (λ _ s'. Consistent s') (handle_event memory counting 3 (event_of "ADDED" "vm") fresh)
unfolding contains
handle_event-Consistent_example =
    handle_event-Consistent memory counting 3 (event_of "ADDED" "vm") fresh fresh-Consistent
      (λ _. inr ((λ h. cc), refl))

-- The first number drawn is taken, the second is free.
generate-IsIssued_example :
    Ensures
      (IsIssued memory-IsLawful.read one_vm "db")
      (generate_external_workload_identity memory counting 2 "db" one_vm)
unfolding is_free lookup
generate-IsIssued_example =
    generate-IsIssued memory memory-IsHealthy memory-IsLawful counting 2 1 "db" one_vm (omega arith)
      refl

update_identity_labels_map-IsLabelled_example :
    Ensures
      (λ _ s'. IsLabelled memory-IsLawful.read one_vm 6 "a=b" s')
      (update_identity_labels_map memory 6 "a=b" one_vm)
update_identity_labels_map-IsLabelled_example =
    update_identity_labels_map-IsLabelled memory memory-IsHealthy memory-IsLawful 6 "a=b" one_vm

only_second : (k : ℕ) → k < 3 → k ≢ 1 → get_or listed k 0 ≢ 5
only_second zero h n e = absurd (omega arith)
only_second (suc zero) h n e = absurd (omega arith)
only_second (suc (suc zero)) h n e = absurd (omega arith)
only_second (suc (suc (suc k))) h n e = absurd (omega arith)

unmap_label_identity-IsUnmapped_example :
    Ensures
      (λ _ s'.
        IsUnmapped memory-IsLawful.read one_vm 5 "vm" "a=b" (3 ∷ 9 ∷ 0 ∷ []) s'
        × (length (swapped listed 1) ≡ 3)
        × (contains (swapped listed 1) 5 ≡ false)
        × (contains (swapped listed 1) 0 ≡ true))
      (unmap_label_identity memory 5 "vm" "a=b" one_vm)
unfolding lookup
unmap_label_identity-IsUnmapped_example =
    unmap_label_identity-IsUnmapped memory memory-IsHealthy memory-IsLawful 5 "vm" "a=b" one_vm
      listed 1 refl (λ e. absurd (omega arith)) (omega arith) refl only_second

fresh-IsFeasible : IsFeasible counting 3 (event_of "ADDED" "vm") fresh
unfolding is_free lookup get_ew_identity_from_name remove_identity remove_from policy_of
fresh-IsFeasible = record {
  draw = 0;
  draw_in_rounds = omega arith;
  draw_is_free = refl;
  removal = λ e. cc;
}

handle_event-returns_example :
    Ensures (λ _ s'. Consistent s') (handle_event memory counting 3 (event_of "ADDED" "vm") fresh)
unfolding contains
handle_event-returns_example =
    handle_event-returns memory memory-IsHealthy memory-IsLawful counting 3 (event_of "ADDED" "vm")
      fresh fresh-Consistent (λ _. inr ((λ h. cc), refl)) fresh-IsFeasible

destroy_kvms_operator-IsUndone_example :
    Ensures
      (λ _ u.
        (l : String)
        → memory-IsLawful.read u.etcd (kvm_opr_label_to_identities <> l)
          ≡ (if "a=b" == l then late_list (identities_of "a=b" one_vm) 6 else none))
      (continue
        (destroy_kvms_operator memory one_vm)
        (λ _. update_identity_labels_map memory 6 "a=b"))
destroy_kvms_operator-IsUndone_example =
    destroy_kvms_operator-IsUndone memory memory-IsHealthy memory-IsLawful 6 "a=b" one_vm
