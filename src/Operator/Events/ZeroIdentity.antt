-- ===== src/Operator/Events/ZeroIdentity.antt =====
-- The DELETED branch of the handler for a workload whose identity is 0, a number that
-- GenerateExternalWorkloadIdentity may draw: the loop of UnMapLabelIdentity meets its own 0.
use kvm_service.Prelude.{ℕ, String, Option, none, ◌≡◌, lookup, ◌<>◌, string_eq}
use kvm_service.Constants.{kvm_opr_label_to_identities}
use kvm_service.Go.Outcome.{exit, panicked}
use kvm_service.Types.Workloads.{ExternalWorkloadSecurityPolicy}
use kvm_service.Etcd.Driver.{Driver}
use kvm_service.Operator.State.{Operator}
use kvm_service.Operator.Events.{deleted, label_of}

-- The operator has panicked: the name has no identity any more, but the label's list, in memory and
-- in the store, is as before and so still names identity 0.
pub record IsStuck {E : Type 0} (d : Driver E) (read : E → String → Option String) (random : ℕ → ℕ)
    (rounds : ℕ) (policy : ExternalWorkloadSecurityPolicy) (s : Operator E) : Type 0 where
  pub after : Operator E
  pub run : deleted d random rounds policy s ≡ exit panicked after
  pub nameless : lookup policy.metadata.name after.map_ewname_to_identity ≡ none
  pub held :
      lookup (label_of policy) after.map_label_to_identities
      ≡ lookup (label_of policy) s.map_label_to_identities
  pub stored :
      read after.etcd (kvm_opr_label_to_identities <> label_of policy)
      ≡ read s.etcd (kvm_opr_label_to_identities <> label_of policy)
