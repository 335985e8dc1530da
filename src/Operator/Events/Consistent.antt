-- ===== src/Operator/Events/Consistent.antt =====
-- The maps between names and identities stay inverse to one another under every event, whatever
-- etcd answers.
use kvm_service.Prelude.{
  ℕ, String, [], ◌∷◌, ◌++◌, some, true, false, ◌&&◌, not, ◌≡◌, ◌≢◌, ◌⊎◌, inl, inr, refl, lookup,
  ◌==◌, nat_eq, string_eq, contains, Bool-cases, Option-cases, if◌then◌else◌,
}
use text.Mathlib.TextEquality.{eq_iff}
use kvm_service.Go.Outcome.{Outcome, done, Returns}
use kvm_service.Go.Outcome.Rules.{Returns-continue, Returns-if, Returns-weaken}
use kvm_service.Types.Workloads.{
  ExternalWorkloadSecurityPolicy, K8sKubeArmorExternalWorkloadPolicyEvent,
}
use kvm_service.Etcd.Driver.{Driver}
use kvm_service.Operator.State.{Operator}
use kvm_service.Operator.Labels.{forget, get_ew_identity_from_name}
use kvm_service.Operator.Events.{
  contains_policy, replace_policy, remove_policy, policy_of, added, modified, deleted, handle_event,
}
use kvm_service.Operator.Events.Policies.{
  names, names-append, names-replace_policy, contains-remove_policy, Distinct-remove_policy,
  contains_of_remove_policy,
}
use kvm_service.Operator.Events.Inverse.{Consistent, delete-IsConsistent}
use kvm_service.Operator.Events.Inverse.Maps.{
  Maps, Consistent-of_Maps, update_identity_labels_map-Maps, unmap_label_identity-Maps,
  generate-Maps,
}

-- Kubernetes names objects uniquely: an ADDED event is a repetition, or has a nonempty name that no
-- listed policy has.
abbrev pub IsAdmissible :
    {E : Type 0} → K8sKubeArmorExternalWorkloadPolicyEvent → Operator E → Type 0
IsAdmissible event s =
    event.type ≡ "ADDED"
    → (contains_policy s.external_workload_security_policies (policy_of event) ≡ true)
      ⊎ ((event.object.metadata.name ≢ "")
          × (contains (names s.external_workload_security_policies) event.object.metadata.name
              ≡ false))

module _ {E : Type 0} (d : Driver E) (random : ℕ → ℕ) (rounds : ℕ)
    (policy : ExternalWorkloadSecurityPolicy) (s : Operator E) (c : Consistent s) where
  added-Consistent :
      (contains_policy s.external_workload_security_policies policy ≡ true)
        ⊎ ((policy.metadata.name ≢ "")
            × (contains (names s.external_workload_security_policies) policy.metadata.name ≡ false))
      → Returns (λ _ s'. Consistent s') (added d random rounds policy s)
  unfolding added
  added-Consistent (inl again) = rw again c
  added-Consistent (inr (nonempty, fresh)) =
      elim (Bool-cases (contains_policy s.external_workload_security_policies policy)) [
        | inl again ↦ rw again c
        | inr new ↦
            let ps = s.external_workload_security_policies in
            let name = policy.metadata.name in
            let listed = names ps ++ name ∷ [] in
            rw new (
              Returns-continue (λ _ s'. Maps listed s') (λ _ s'. Consistent s') _ _
                (generate-Maps d (names ps) name nonempty fresh random rounds
                  (record s { external_workload_security_policies = ps ++ policy ∷ [] })
                  (names-append ps policy, c))
                (λ identity s1 h1.
                  Returns-weaken (λ _ s'. Maps listed s') (λ _ s'. Consistent s') _
                    (update_identity_labels_map-Maps d listed identity _ s1 h1)
                    (λ _ s2 h2. Consistent-of_Maps listed s2 h2)))
      ]

  modified-Consistent : Returns (λ _ s'. Consistent s') (modified d random rounds policy s)
  unfolding modified
  modified-Consistent =
      let ps = s.external_workload_security_policies in
      elim (Option-cases (replace_policy ps policy)) [
        | inl unknown ↦ rw (unknown, Returns, modified) c
        | inr (qs, found) ↦
            rw (found, Returns, modified)
              (Returns-weaken (λ _ s'. Maps (names ps) s') (λ _ s'. Consistent s') _
                (update_identity_labels_map-Maps d (names ps) _ _
                  (record s { external_workload_security_policies = qs })
                  (names-replace_policy ps qs policy found, c))
                (λ _ s2 h2. Consistent-of_Maps (names ps) s2 h2))
      ]

  -- A listed policy has an identity.
  identity_of_listed :
      (name : String)
      → contains (names s.external_workload_security_policies) name ≡ true
      → lookup name s.map_ewname_to_identity ≡ some (get_ew_identity_from_name name s)
  unfolding get_ew_identity_from_name
  identity_of_listed name h = elim (Option-cases (lookup name s.map_ewname_to_identity)) [
    | inl missing ↦ cc (c.complete name, h, missing)
    | inr (i, held) ↦ rw held
  ]

  deleted-Consistent : Returns (λ _ s'. Consistent s') (deleted d random rounds policy s)
  unfolding deleted forget get_ew_identity_from_name
  deleted-Consistent =
      let ps = s.external_workload_security_policies in
      let name = policy.metadata.name in
      elim (Option-cases (remove_policy ps policy)) [
        | inl unknown ↦ rw (unknown, Returns, deleted) c
        | inr (qs, found) ↦
            let identity = get_ew_identity_from_name name s in
            let held = identity_of_listed name (contains_of_remove_policy ps qs policy found) in
            rw (found, Returns, deleted)
              (Returns-weaken (λ _ s'. Maps (names qs) s') (λ _ s'. Consistent s') _
                (unmap_label_identity-Maps d (names qs) identity name _
                  (record s { external_workload_security_policies = qs })
                  (
                    refl,
                    (delete-IsConsistent (names ps) _ _ c name identity (names qs) held
                        (λ n. contains-remove_policy ps qs policy n found c.distinct)
                        (Distinct-remove_policy ps qs policy found c.distinct)),
                  ))
                (λ _ s2 h2. Consistent-of_Maps (names qs) s2 h2))
      ]

-- From a consistent state, and where an ADDED event is for a policy that is listed already or for a
-- nonempty name that is not listed, a handled event that returns leaves the identity-to-name and
-- name-to-identity maps inverse to one another, with an identity for exactly the listed names,
-- whatever etcd answers.
pub handle_event-Consistent :
    {E : Type 0} (d : Driver E) (random : ℕ → ℕ) (rounds : ℕ)
    (event : K8sKubeArmorExternalWorkloadPolicyEvent) (s : Operator E)
    → Consistent s
    → IsAdmissible event s
    → Returns (λ _ s'. Consistent s') (handle_event d random rounds event s)
unfolding handle_event policy_of
handle_event-Consistent {E} d random rounds event s c a =
    let P = λ (_ : Unit {0}) (s' : Operator E). Consistent s' in
    let policy = policy_of event in
    let kind = event.type in
    let status = event.object.status.status in
    let skip : Outcome (Operator E) (Unit {0}) = done tt s in
    let on_deleted = if kind == "DELETED" then deleted d random rounds policy s else skip in
    let on_modified =
      if kind == "MODIFIED" then modified d random rounds policy s else on_deleted in
    let on_added = if kind == "ADDED" then added d random rounds policy s else on_modified in
    Returns-if P (not (status == "") && not (status == "OK")) skip on_added (λ _. c)
      λ _.
        Returns-if P (kind == "ADDED") (added d random rounds policy s) on_modified
          (λ e. added-Consistent d random rounds policy s c (a ((eq_iff _ _).0 e)))
          λ _.
            Returns-if P (kind == "MODIFIED") (modified d random rounds policy s) on_deleted
              (λ _. modified-Consistent d random rounds policy s c)
              λ _.
                Returns-if P (kind == "DELETED") (deleted d random rounds policy s) skip
                  (λ _. deleted-Consistent d random rounds policy s c) (λ _. c)
