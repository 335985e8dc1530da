-- ===== src/Operator/Daemon/Late.antt =====
-- What becomes of the deletion in DestroyKVMSOperator (src/operator/core/kvmOperator.go) beside a watcher
-- that nothing stops: the watcher updates a label (src/operator/core/crdHandler.go) after it.
use kvm_service.Prelude.{
  ℕ, String, List, [], ◌∷◌, ◌++◌, Option, none, some, ◌≡◌, refl, sym, ◌∙◌, ◌<>◌, ◌==◌, string_eq,
  nat_eq, if◌then◌else◌, contains, ==_cases, ==_refl, ==_of_ne, inl, inr, starts_with_long,
}
use kvm_service.Constants.{kvm_opr_label_to_identities}
use kvm_service.Go.Outcome.{Ensures, continue}
use kvm_service.Go.Outcome.Rules.{Ensures-continue, Ensures-weaken}
use kvm_service.Go.Json.{marshal_ids}
use kvm_service.Etcd.Driver.{Driver, IsLawful, IsHealthy}
use kvm_service.Etcd.Client.{etcd_delete}
use kvm_service.Operator.State.{Operator, destroy_kvms_operator}
use kvm_service.Operator.Labels.{update_identity_labels_map}
use kvm_service.Operator.Labels.Published.{
  IsLabelled, identities_of, update_identity_labels_map-IsLabelled,
}

-- What the store has under a label after the deletion and an update of a label for an identity: the list
-- of the updated label from memory, if the identity is new to it, and otherwise nothing.
abbrev pub late_list : List ℕ → ℕ → Option String
late_list ids identity =
    if contains ids identity then none else some (marshal_ids (some (ids ++ identity ∷ [])))

module _ {E : Type 0} (d : Driver E) (healthy : IsHealthy d) (lawful : IsLawful d) where
  -- The store has no lists, and the memory is as it was.
  abbrev Erased : Operator E → Operator E → Type 0
  Erased s t =
      ((l : String) → lawful.read t.etcd (kvm_opr_label_to_identities <> l) ≡ none)
      × (t.map_label_to_identities ≡ s.map_label_to_identities)

  destroy-Erased : (s : Operator E) → Ensures (λ _ t. Erased s t) (destroy_kvms_operator d s)
  unfolding destroy_kvms_operator etcd_delete
  destroy-Erased s = (
    λ l.
        lawful.delete-read kvm_opr_label_to_identities s.etcd _
          (healthy.delete_ok kvm_opr_label_to_identities s.etcd)
        ∙ (rw (starts_with_long kvm_opr_label_to_identities l)),
    refl,
  )

  late-stored :
      (identity : ℕ) (label : String) (s t u : Operator E)
      → Erased s t
      → IsLabelled lawful.read t identity label u
      → (l : String)
      → lawful.read u.etcd (kvm_opr_label_to_identities <> l)
        ≡ (if label == l then late_list (identities_of label s) identity else none)
  late-stored identity label s t u (bare, kept) labelled l = elim (==_cases label l) [
    | inr other ↦
        rw (==_of_ne label l other) (labelled.others_stored l (λ e. other (sym e)) ∙ bare l)
    | inl same ↦ rw (← same, ==_refl label) (labelled.stored ∙ (rw (kept, bare label) refl))
  ]

  -- On a healthy store that keeps etcd's promises, where the watcher updates a label for an
  -- identity after the operator's deletion of the lists, the update returns. If the operator's
  -- memory did not list the identity under the label, then the store has that label's list as it
  -- was in memory with the identity behind it, in spite of the deletion; if it did, the store has
  -- no list of the label. No other label has a list in the store.
  pub destroy_kvms_operator-IsUndone :
      (identity : ℕ) (label : String) (s : Operator E)
      → Ensures
          (λ _ u.
            (l : String)
            → lawful.read u.etcd (kvm_opr_label_to_identities <> l)
              ≡ (if label == l then late_list (identities_of label s) identity else none))
          (continue (destroy_kvms_operator d s) (λ _. update_identity_labels_map d identity label))
  destroy_kvms_operator-IsUndone identity label s =
      Ensures-continue (λ _ t. Erased s t) _ (destroy_kvms_operator d s) _ (destroy-Erased s)
        (λ _ t erased.
          Ensures-weaken _ _ (update_identity_labels_map d identity label t)
            (update_identity_labels_map-IsLabelled d healthy lawful identity label t)
            (λ _ u labelled. late-stored identity label s t u erased labelled))
