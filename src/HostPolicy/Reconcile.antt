-- ===== src/HostPolicy/Reconcile.antt =====
-- The two reconcilers (pkg/KubeArmorHostPolicy/controllers/kubearmorhostpolicy_controller.go,
-- pkg/KubeArmorExternalWorkload/controllers/kubearmorexternalworkload_controller.go). The cluster is
-- the state; what its client answers is a parameter.
pub mod Status
use kvm_service.Prelude.{String, List, Option, none, some, ◌≡◌, ◌≢◌, ◌↔◌, ◌⊎◌, inl, inr, refl, All}
use kvm_service.Go.Outcome.{Result, ok, err}
use kvm_service.HostPolicy.Types.{
  KubeArmorHostPolicy, KubeArmorHostPolicySpec, KubeArmorHostPolicyStatus,
}
use kvm_service.HostPolicy.Schema.{
  PolicyError, and_then, validate_process_schema, validate_file_schema, validate_network_schema,
  validate_capabilities_schema,
}
use kvm_service.HostPolicy.Schema.Laws.{
  IsProcessValid, IsFileValid, SourceIsNoPath, validate_process_schema_iff,
  validate_file_schema_iff, validate_network_schema_iff, validate_capabilities_schema_iff,
}

-- The answer of `r.Get`.
pub data Found (A : Type 0) : Type 0 where
  found : A → Found A
  not_found : Found A
  failed : String → Found A

-- The calls of the controller runtime's client.
pub record ClusterClient (C : Type 0) : Type 0 where
  pub get : String → C → Found KubeArmorHostPolicy
  -- `r.Status().Update`
  pub update_status : KubeArmorHostPolicy → C → Option String × C

-- The chain of checks up to the label POLICYERROR.
unfoldable pub policy_error : KubeArmorHostPolicySpec → Option PolicyError
policy_error spec = and_then (validate_process_schema spec) (
    and_then (validate_file_schema spec)
      (and_then (validate_network_schema spec) (validate_capabilities_schema spec)))

abbrev pub with_status : String → KubeArmorHostPolicy → KubeArmorHostPolicy
with_status status policy = record policy { status = record { policy_status = status } }

module _ {C : Type 0} (client : ClusterClient C) where
  -- The returned error, none for nil: an object that is not found is no error.
  unfoldable pub reconcile : String → C → Option String × C
  reconcile name c = elim (client.get name c) [
    | not_found ↦ (none, c)
    | failed m ↦ (some m, c)
    | found policy ↦ elim (policy_error policy.spec) [
      | some e ↦ client.update_status (with_status "Not OK" policy) c
      | none ↦ let (e, c') = client.update_status (with_status "OK" policy) c in (none, c')
    ]
  ]

-- The reconciler of external workloads checks nothing.
unfoldable pub reconcile_external_workload : {W : Type 0} → Found W → Option String
reconcile_external_workload (found w) = none
reconcile_external_workload not_found = none
reconcile_external_workload (failed m) = some m

-- All four groups of rules fit.
pub record IsValidPolicy (spec : KubeArmorHostPolicySpec) : Type 0 where
  pub process : IsProcessValid spec
  pub file : IsFileValid spec
  pub network : All (λ m. All SourceIsNoPath m.from_source) spec.network.match_protocols
  pub capabilities :
      All (λ m. All SourceIsNoPath m.from_source) spec.capabilities.match_capabilities
