-- ===== src/Operator/Events/Frame.antt =====
-- The methods that the handler calls leave the list of policies alone, whatever etcd answers, so an
-- event changes it by itself.
use kvm_service.Prelude.{
  ℕ, zero, suc, ◌%◌, ◌^◌, String, List, [], ◌∷◌, ◌++◌, Option, none, some, Bool, true, false, ◌&&◌,
  not, ◌≡◌, refl, ◌==◌, nat_eq, string_eq, Bool-cases, Option-cases, inl, inr, if◌then◌else◌,
}
use mathlib.Core.Option.{get_or as value_or}
use kvm_service.Go.Outcome.{Outcome, Returns}
use kvm_service.Go.Outcome.Rules.{Returns-continue}
use kvm_service.Go.Slice.{Window}
use kvm_service.Types.Workloads.{
  ExternalWorkloadSecurityPolicy, K8sKubeArmorExternalWorkloadPolicyEvent,
}
use kvm_service.Etcd.Driver.{Driver}
use kvm_service.Operator.State.{Operator}
use kvm_service.Operator.Writes.{Returns-put, Returns-delete}
use kvm_service.Operator.Identities.{is_free, register, enter, generate_external_workload_identity}
use kvm_service.Operator.Labels.{
  forget, keep_array, remove_from_label, publish_label, update_identity_labels_map,
  unmap_label_identity,
}
use kvm_service.Operator.Labels.Frame.{update_identity_labels_map-keeps}
use kvm_service.Operator.Events.{
  contains_policy, replace_policy, remove_policy, policy_of, added, modified, deleted, handle_event,
}

-- The list that the handler leaves.
abbrev pub policies_after :
    K8sKubeArmorExternalWorkloadPolicyEvent
    → List ExternalWorkloadSecurityPolicy
    → List ExternalWorkloadSecurityPolicy
policies_after event ps =
    let policy = policy_of event in
    if not (event.object.status.status == "") && not (event.object.status.status == "OK")
    then ps
    else if event.type == "ADDED"
    then if contains_policy ps policy then ps else ps ++ policy ∷ []
    else if event.type == "MODIFIED"
    then value_or (replace_policy ps policy) ps
    else if event.type == "DELETED"
    then value_or (remove_policy ps policy) ps
    else ps

module _ {E : Type 0} (d : Driver E) (ps : List ExternalWorkloadSecurityPolicy) where
  abbrev pub Lists : Operator E → Type 0
  Lists s = s.external_workload_security_policies ≡ ps

  abbrev KeepsList : Outcome (Operator E) (Unit {0}) → Type 0
  KeepsList = Returns (λ _ s'. Lists s')

  update-KeepsList :
      (identity : ℕ) (label : String) (s : Operator E)
      → Lists s
      → KeepsList (update_identity_labels_map d identity label s)
  update-KeepsList identity label s h =
      update_identity_labels_map-keeps d Lists (λ t m q. q) (λ t m q. q) label (λ t x value q. q)
        (λ t value q. q) identity s h

  keep_array-KeepsList :
      (label : String) (r : Option Window) (s : Operator E)
      → Lists s
      → KeepsList (keep_array label r s)
  unfolding keep_array
  keep_array-KeepsList label none s h = tt
  keep_array-KeepsList label (some w) s h = h

  unmap-KeepsList :
      (identity : ℕ) (ew_name label : String) (s : Operator E)
      → Lists s
      → KeepsList (unmap_label_identity d identity ew_name label s)
  unfolding unmap_label_identity forget remove_from_label publish_label
  unmap-KeepsList identity ew_name label s h =
      let P = λ (_ : Unit {0}) (s' : Operator E). Lists s' in
      Returns-continue P P _ _ (Returns-delete d Lists _ _ h) λ _ s1 h1.
        Returns-continue P P _ _ (Returns-delete d Lists _ s1 h1) λ _ s2 h2.
          Returns-continue P P _ _ (Returns-delete d Lists _ s2 h2) λ _ s3 h3.
            Returns-continue P P _ _ (keep_array-KeepsList label _ s3 h3)
              λ _ s4 h4. Returns-put d Lists _ _ s4 h4

  generate-KeepsList :
      (random : ℕ → ℕ) (rounds : ℕ) (name : String) (s : Operator E)
      → Lists s
      → Returns (λ _ s'. Lists s') (generate_external_workload_identity d random rounds name s)
  unfolding generate_external_workload_identity register enter
  generate-KeepsList random zero name s h = tt
  generate-KeepsList random (suc rounds) name s h =
      let P = λ (_ : Unit {0}) (s' : Operator E). Lists s' in
      elim (Bool-cases (is_free (random s.drawn % 2 ^ 16) s)) [
        | inl free ↦
            rw (free, Returns, generate_external_workload_identity)
              (Returns-continue P (λ _ s'. Lists s') _ _ (Returns-put d Lists _ _ _ h)
                λ _ s1 h1.
                  Returns-continue P (λ _ s'. Lists s') _ _ (Returns-put d Lists _ _ s1 h1)
                    λ _ s2 h2. h2)
        | inr taken ↦
            rw (taken, Returns, generate_external_workload_identity)
              (generate-KeepsList random rounds name _ h)
      ]

module _ {E : Type 0} (d : Driver E) (random : ℕ → ℕ) (rounds : ℕ) (s : Operator E) where
  abbrev ps : List ExternalWorkloadSecurityPolicy
  ps = s.external_workload_security_policies

  added-policies :
      (policy : ExternalWorkloadSecurityPolicy)
      → Returns
          (λ _ s'.
            s'.external_workload_security_policies
            ≡ (if contains_policy ps policy then ps else ps ++ policy ∷ []))
          (added d random rounds policy s)
  unfolding added
  added-policies policy = elim (Bool-cases (contains_policy ps policy)) [
    | inl again ↦ rw (again, added) refl
    | inr new ↦
        let listed = ps ++ policy ∷ [] in
        rw (new, added)
          (Returns-continue (λ _ s'. Lists d listed s') (λ _ s'. Lists d listed s') _ _
            (generate-KeepsList d listed random rounds policy.metadata.name _ refl)
            (λ identity s1 h1. update-KeepsList d listed identity _ s1 h1))
  ]

  modified-policies :
      (policy : ExternalWorkloadSecurityPolicy)
      → Returns
          (λ _ s'. s'.external_workload_security_policies ≡ value_or (replace_policy ps policy) ps)
          (modified d random rounds policy s)
  unfolding modified
  modified-policies policy = elim (Option-cases (replace_policy ps policy)) [
    | inl unknown ↦ rw (unknown, modified) refl
    | inr (qs, found) ↦ rw (found, modified) (update-KeepsList d qs _ _ _ refl)
  ]

  deleted-policies :
      (policy : ExternalWorkloadSecurityPolicy)
      → Returns
          (λ _ s'. s'.external_workload_security_policies ≡ value_or (remove_policy ps policy) ps)
          (deleted d random rounds policy s)
  unfolding deleted
  deleted-policies policy = elim (Option-cases (remove_policy ps policy)) [
    | inl unknown ↦ rw (unknown, deleted) refl
    | inr (qs, found) ↦ rw (found, deleted) (unmap-KeepsList d qs _ _ _ _ refl)
  ]

  -- Two branches, and the list that each leaves.
  Leaves-if :
      (b : Bool) (m n : Outcome (Operator E) (Unit {0}))
      (qs rs : List ExternalWorkloadSecurityPolicy)
      → Returns (λ _ s'. Lists d qs s') m
      → Returns (λ _ s'. Lists d rs s') n
      → Returns (λ _ s'. Lists d (if b then qs else rs) s') (if b then m else n)
  Leaves-if true m n qs rs h k = h
  Leaves-if false m n qs rs h k = k

  pub handle_event-policies :
      (event : K8sKubeArmorExternalWorkloadPolicyEvent)
      → Returns
          (λ _ s'. s'.external_workload_security_policies ≡ policies_after event ps)
          (handle_event d random rounds event s)
  unfolding handle_event
  handle_event-policies event =
      let policy = policy_of event in
      Leaves-if (not (event.object.status.status == "") && not (event.object.status.status == "OK"))
        _ _ ps _ refl
        (Leaves-if (event.type == "ADDED") _ _ _ _ (added-policies policy) (
          Leaves-if (event.type == "MODIFIED") _ _ _ _ (modified-policies policy)
            (Leaves-if (event.type == "DELETED") _ _ _ _ (deleted-policies policy) refl)))
