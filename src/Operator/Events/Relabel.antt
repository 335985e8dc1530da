-- ===== src/Operator/Events/Relabel.antt =====
-- What a MODIFIED event with another label leaves behind.
use mathlib.Core.Option.{get_or as value_or}
use text.Mathlib.TextLemmas.{append_cancel_left}
use kvm_service.Prelude.{
  ℕ, String, List, [], Option, some, true, ◌≡◌, ◌≢◌, sym, ◌∙◌, ap, contains, ◌<>◌, ==_refl, nat_eq,
  string_eq, starts_with_long, or_true,
}
use kvm_service.Constants.{kvm_opr_label_to_identities}
use kvm_service.Go.Outcome.{Ensures}
use kvm_service.Go.Outcome.Rules.{Ensures-both, Ensures-weaken}
use kvm_service.Go.Json.{marshal_ids}
use kvm_service.Types.Workloads.{ExternalWorkloadSecurityPolicy}
use kvm_service.Etcd.Driver.{Driver, IsLawful, IsHealthy}
use kvm_service.Operator.State.{Operator}
use kvm_service.Operator.Labels.{get_ew_identity_from_name, update_identity_labels_map}
use kvm_service.Operator.Labels.Published.{
  identities_of, IsPublished, IsLabelled-IsPublished, update_identity_labels_map-IsLabelled,
}
use kvm_service.Operator.Labels.Frame.{update_identity_labels_map-SameLists}
use kvm_service.Operator.Events.{replace_policy, label_of, modified}

-- The identity is listed under the label, in memory and in the store.
pub record IsListedUnder {E : Type 0} (read : E → String → Option String) (identity : ℕ)
    (label : String) (t : Operator E) : Type 0 where
  pub held : contains (identities_of label t) identity ≡ true
  pub published : IsPublished read label t

-- On a healthy store that keeps etcd's promises, where the policy's name is listed and its identity
-- is listed under another label in memory and in the store, and the list of the new label is
-- published if it has the identity, the handling of a MODIFIED policy returns with the identity
-- listed under both labels, in memory and in the store.
pub modified-IsListedUnder :
    {E : Type 0} (d : Driver E) (healthy : IsHealthy d) (lawful : IsLawful d) (random : ℕ → ℕ)
    (rounds : ℕ) (policy : ExternalWorkloadSecurityPolicy) (old : String)
    (ps : List ExternalWorkloadSecurityPolicy) (s : Operator E)
    → replace_policy s.external_workload_security_policies policy ≡ some ps
    → old ≢ label_of policy
    → IsListedUnder lawful.read (get_ew_identity_from_name policy.metadata.name s) old s
    → (contains
            (identities_of (label_of policy) s)
            (get_ew_identity_from_name policy.metadata.name s)
          ≡ true
        → IsPublished lawful.read (label_of policy) s)
    → Ensures
        (λ _ t.
          IsListedUnder lawful.read (get_ew_identity_from_name policy.metadata.name s) old t
          × IsListedUnder lawful.read
              (get_ew_identity_from_name policy.metadata.name s)
              (label_of policy)
              t)
        (modified d random rounds policy s)
unfolding modified get_ew_identity_from_name
modified-IsListedUnder d healthy lawful random rounds policy old ps s found other before published =
    let identity = get_ew_identity_from_name policy.metadata.name s in
    let label = label_of policy in
    let s1 = record s { external_workload_security_policies = ps } in
    let run = update_identity_labels_map d identity label s1 in
    rw (found, modified)
      (Ensures-weaken _ _ run
        (Ensures-both _ _ run
          (update_identity_labels_map-IsLabelled d healthy lawful identity label s1)
          (update_identity_labels_map-SameLists d healthy lawful identity label s1))
        (λ _ t (l, same). (
          record {
            held = ap (λ o. contains (value_or o []) identity) (l.others old other) ∙ before.held;
            published =
                same (kvm_opr_label_to_identities <> old)
                  (starts_with_long kvm_opr_label_to_identities old)
                  (λ e. other (append_cancel_left kvm_opr_label_to_identities old label e))
                ∙ before.published
                ∙ ap (λ o. some (marshal_ids o)) (sym (l.others old other));
          },
          record {
            held = l.listed identity ∙ (rw (==_refl identity) (or_true _));
            published = IsLabelled-IsPublished lawful.read s1 identity label t l published;
          },
        )))
