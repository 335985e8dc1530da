-- ===== src/Operator/Events/Progress.antt =====
-- When the handler of external workload events returns.
use mathlib.Core.Option.{get_or as value_or}
use kvm_service.Prelude.{
  ℕ, ◌+◌, ◌%◌, ◌^◌, ◌<◌, String, [], ◌∷◌, ◌++◌, none, true, ◌&&◌, not, ◌≡◌, ◌≢◌, lookup, insert,
  ◌<>◌, ◌==◌, nat_eq, string_eq, Bool-cases, Option-cases, inl, inr,
}
use kvm_service.Constants.{kvm_opr_identity_to_label, kvm_opr_label_to_identities}
use kvm_service.Go.Outcome.{Outcome, Ensures}
use kvm_service.Go.Outcome.Rules.{Ensures-continue, Ensures-Returns, Ensures-if}
use kvm_service.Go.Strconv.{format_uint}
use kvm_service.Go.Slice.{remove_identity}
use kvm_service.Types.Workloads.{
  ExternalWorkloadSecurityPolicy, K8sKubeArmorExternalWorkloadPolicyEvent,
}
use kvm_service.Etcd.Driver.{Driver, IsLawful, IsHealthy}
use kvm_service.Operator.State.{Operator}
use kvm_service.Operator.Writes.{put_or_fatal-done}
use kvm_service.Operator.Identities.{is_free, generate_external_workload_identity}
use kvm_service.Operator.Identities.Issue.{IsIssued, generate-IsIssued}
use kvm_service.Operator.Labels.{
  find, publish_label, add_to_label, update_identity_labels_map, unmap_label_identity,
  get_ew_identity_from_name,
}
use kvm_service.Operator.Labels.Removal.{unmap_label_identity-done}
use kvm_service.Operator.Events.Inverse.{Consistent}
use kvm_service.Operator.Events.Consistent.{IsAdmissible, handle_event-Consistent}
use kvm_service.Operator.Events.{
  contains_policy, replace_policy, remove_policy, policy_of, label_of, added, modified, deleted,
  handle_event,
}

abbrev IsDone : {E : Type 0} → Outcome (Operator E) (Unit {0}) → Type 0
IsDone = Ensures (λ _ _. Unit {0})

module _ {E : Type 0} (d : Driver E) (healthy : IsHealthy d) (lawful : IsLawful d) where
  update-returns :
      (identity : ℕ) (label : String) (s : Operator E)
      → IsDone (update_identity_labels_map d identity label s)
  unfolding update_identity_labels_map add_to_label publish_label
  update-returns identity label s =
      let ids = value_or (lookup label s.map_label_to_identities) [] in
      rw
        (put_or_fatal-done d healthy (kvm_opr_identity_to_label <> format_uint identity) label
          (record s { map_identity_to_label = insert identity label s.map_identity_to_label }))
        (elim (Bool-cases (find ids identity).1) [
          | inl old ↦ rw (old, add_to_label) tt
          | inr new ↦
              rw (new, add_to_label)
                (rw (put_or_fatal-done d healthy (kvm_opr_label_to_identities <> label) _ _) tt)
        ])

  unmap-returns :
      (identity : ℕ) (ew_name label : String) (s : Operator E)
      → remove_identity identity (value_or (lookup label s.map_label_to_identities) []) ≢ none
      → IsDone (unmap_label_identity d identity ew_name label s)
  unmap-returns identity ew_name label s removes =
      elim (Option-cases
        (remove_identity identity (value_or (lookup label s.map_label_to_identities) []))) [
          | inl h ↦ absurd (removes h)
          | inr (w, h) ↦
              rw
                (unmap_label_identity-done d healthy lawful identity ew_name label s w.array w.len
                  h)
                tt
        ]

module _ {E : Type 0} (random : ℕ → ℕ) (rounds : ℕ) where
  -- An ADDED event finds a free identity within the rounds, and the removal for a DELETED event does
  -- not run out of bounds.
  pub record IsFeasible (event : K8sKubeArmorExternalWorkloadPolicyEvent) (s : Operator E)
      : Type 0 where
    pub draw : ℕ
    pub draw_in_rounds : draw < rounds
    pub draw_is_free : is_free (random (s.drawn + draw) % 2 ^ 16) s ≡ true
    pub removal :
        remove_identity
          (get_ew_identity_from_name (policy_of event).metadata.name s)
          (value_or (lookup (label_of (policy_of event)) s.map_label_to_identities) [])
        ≢ none

module _ {E : Type 0} (d : Driver E) (healthy : IsHealthy d) (lawful : IsLawful d) (random : ℕ → ℕ)
    (rounds : ℕ) where
  added-returns :
      (policy : ExternalWorkloadSecurityPolicy) (k : ℕ) (s : Operator E)
      → k < rounds
      → is_free (random (s.drawn + k) % 2 ^ 16) s ≡ true
      → IsDone (added d random rounds policy s)
  unfolding added is_free
  added-returns policy k s h f =
      Ensures-if (λ _ _. Unit {0}) (contains_policy s.external_workload_security_policies policy) _
        _ (λ _. tt)
        (λ _.
          let s1 = record s {
            external_workload_security_policies =
                s.external_workload_security_policies ++ policy ∷ [];
          } in
          Ensures-continue (IsIssued lawful.read s1 policy.metadata.name) (λ _ _. Unit {0})
            (generate_external_workload_identity d random rounds policy.metadata.name s1) _
            (generate-IsIssued d healthy lawful random rounds k policy.metadata.name s1 h f)
            (λ identity t _. update-returns d healthy lawful identity (label_of policy) t))

  modified-returns :
      (policy : ExternalWorkloadSecurityPolicy) (s : Operator E)
      → IsDone (modified d random rounds policy s)
  unfolding modified
  modified-returns policy s =
      elim (Option-cases (replace_policy s.external_workload_security_policies policy)) [
        | inl h ↦ rw (h, modified) tt
        | inr (ps, h) ↦ rw (h, modified) (update-returns d healthy lawful _ (label_of policy) _)
      ]

  deleted-returns :
      (policy : ExternalWorkloadSecurityPolicy) (s : Operator E)
      → remove_identity
          (get_ew_identity_from_name policy.metadata.name s)
          (value_or (lookup (label_of policy) s.map_label_to_identities) [])
        ≢ none
      → IsDone (deleted d random rounds policy s)
  unfolding deleted get_ew_identity_from_name
  deleted-returns policy s removes =
      elim (Option-cases (remove_policy s.external_workload_security_policies policy)) [
        | inl h ↦ rw (h, deleted) tt
        | inr (ps, h) ↦
            rw (h, deleted)
              (unmap-returns d healthy lawful _ policy.metadata.name (label_of policy) _ removes)
      ]

  handle_event-IsDone :
      (event : K8sKubeArmorExternalWorkloadPolicyEvent) (s : Operator E)
      → IsFeasible random rounds event s
      → IsDone (handle_event d random rounds event s)
  unfolding handle_event
  handle_event-IsDone event s f =
      let P = λ (_ : Unit {0}) (_ : Operator E). Unit {0} in
      Ensures-if P
        (not (event.object.status.status == "") && not (event.object.status.status == "OK")) _ _
        (λ _. tt)
        (λ _.
          Ensures-if P (event.type == "ADDED") _ _
            (λ _. added-returns (policy_of event) f.draw s f.draw_in_rounds f.draw_is_free)
            (λ _.
              Ensures-if P (event.type == "MODIFIED") _ _
                (λ _. modified-returns (policy_of event) s)
                (λ _.
                  Ensures-if P (event.type == "DELETED") _ _
                    (λ _. deleted-returns (policy_of event) s f.removal) (λ _. tt))))

  -- On a healthy store that keeps etcd's promises, from a consistent state, where an ADDED event is
  -- for a policy that is listed already or for a nonempty name that is not listed, where a number
  -- drawn within the rounds is free, and where the removal from the label's list does not run out
  -- of bounds, the handler of an event returns, and leaves the identity-to-name and name-to-
  -- identity maps inverse to one another, with an identity for exactly the listed names.
  pub handle_event-returns :
      (event : K8sKubeArmorExternalWorkloadPolicyEvent) (s : Operator E)
      → Consistent s
      → IsAdmissible event s
      → IsFeasible random rounds event s
      → Ensures (λ _ s'. Consistent s') (handle_event d random rounds event s)
  handle_event-returns event s c a f =
      Ensures-Returns _ (λ _ _. Unit {0}) (handle_event d random rounds event s)
        (handle_event-Consistent d random rounds event s c a) (handle_event-IsDone event s f)
