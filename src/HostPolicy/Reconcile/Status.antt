-- ===== src/HostPolicy/Reconcile/Status.antt =====
-- Which status a policy gets.
use kvm_service.Prelude.{String, none, ◌≡◌, ◌↔◌, ◌⊎◌, inl, inr, Option-cases}
use kvm_service.HostPolicy.Types.{KubeArmorHostPolicy, KubeArmorHostPolicySpec}
use kvm_service.HostPolicy.Schema.Laws.{
  and_then_iff, ×_iff, ∘_iff, validate_process_schema_iff, validate_file_schema_iff,
  validate_network_schema_iff, validate_capabilities_schema_iff,
}
use kvm_service.HostPolicy.Reconcile.{
  found, ClusterClient, policy_error, with_status, reconcile, IsValidPolicy,
}

-- The chain of checks finds no error exactly in the policies whose four groups of rules are valid.
pub policy_error_iff :
    (spec : KubeArmorHostPolicySpec) → (policy_error spec ≡ none) ↔ IsValidPolicy spec
unfolding policy_error
policy_error_iff spec =
    let all = ∘_iff (and_then_iff _ _) (
      ×_iff (validate_process_schema_iff spec) (
        ∘_iff (and_then_iff _ _) (
          ×_iff (validate_file_schema_iff spec) (
            ∘_iff (and_then_iff _ _) (
              ×_iff (validate_network_schema_iff spec)
                (validate_capabilities_schema_iff spec)))))) in
    (
      λ h.
          let (p, (f, (n, c))) = all.0 h in
          record { process = p; file = f; network = n; capabilities = c },
      λ v. all.1 (v.process, (v.file, (v.network, v.capabilities))),
    )

-- A host policy that the cluster has gets the status OK and no error when it is valid, and
-- otherwise the status Not OK and the error of that update.
pub reconcile-status :
    {C : Type 0} (client : ClusterClient C) (name : String) (c : C) (policy : KubeArmorHostPolicy)
    → client.get name c ≡ found policy
    → (IsValidPolicy policy.spec
        × (reconcile client name c ≡ (none, (client.update_status (with_status "OK" policy) c).1)))
      ⊎ ((¬ IsValidPolicy policy.spec)
          × (reconcile client name c ≡ client.update_status (with_status "Not OK" policy) c))
unfolding reconcile
reconcile-status client name c policy h = elim (Option-cases (policy_error policy.spec)) [
  | inl e ↦ inl ((policy_error_iff policy.spec).0 e, rw (h, e, reconcile))
  | inr (m, e) ↦ inr (
    λ v. let q : policy_error policy.spec ≡ none = (policy_error_iff policy.spec).1 v in cc,
    rw (h, e, reconcile),
  )
]
