-- ===== src/Operator/Events/Admission.antt =====
-- What an ADDED event for a new workload leaves in the store for the service to read.
use mathlib.Core.Option.{get_or as value_or}
use kvm_service.Prelude.{
  or_true, or_false, ==_cases, ==_of_ne, ℕ, ◌+◌, ◌%◌, ◌^◌, ◌<◌, String, List, [], ◌∷◌, ◌++◌, Option,
  some, Bool, true, false, ◌||◌, ◌≡◌, ◌≢◌, refl, sym, ◌∙◌, ap, lookup, All, All-of_contains,
  contains, ◌<>◌, ◌==◌, ==_refl, nat_eq, string_eq, starts_with_long, Option-cases, inl, inr,
}
use kvm_service.Constants.{kvm_opr_label_to_identities}
use kvm_service.Go.Outcome.{Ensures}
use kvm_service.Go.Outcome.Rules.{Returns-both, Ensures-continue, Ensures-both, Ensures-weaken}
use kvm_service.Go.Json.{marshal_ids}
use kvm_service.Types.Workloads.{ExternalWorkloadSecurityPolicy}
use kvm_service.Etcd.Driver.{Driver, IsLawful, IsHealthy}
use kvm_service.Operator.State.{Operator}
use kvm_service.Operator.Identities.{is_free, generate_external_workload_identity}
use kvm_service.Operator.Identities.Issue.{IsIssued, generate-IsIssued}
use kvm_service.Operator.Labels.{update_identity_labels_map}
use kvm_service.Operator.Labels.Published.{
  identities_of, IsPublished, IsLabelled, IsLabelled-IsPublished,
  update_identity_labels_map-IsLabelled,
}
use kvm_service.Operator.Labels.Frame.{
  SameLists, AllLists, update_identity_labels_map-keeps, update_identity_labels_map-SameLists,
  generate-AllLists,
}
use kvm_service.Operator.Events.{contains_policy, label_of, added}

-- The workload has an identity, which is in the stored list of its label; every number of the list
-- has 16 bits, and the other lists are as before.
pub record IsAdmitted {E : Type 0} (read : E → String → Option String) (label name : String)
    (o t : Operator E) : Type 0 where
  pub identity : ℕ
  pub named : lookup name t.map_ewname_to_identity ≡ some identity
  pub ids : List ℕ
  pub stored : read t.etcd (kvm_opr_label_to_identities <> label) ≡ some (marshal_ids (some ids))
  pub holds : contains ids identity ≡ true
  pub small : All (λ n. n < 2 ^ 16) ids
  pub others : SameLists (read o.etcd) label (read t.etcd)

-- The list that the operator holds for a label is the one that it has published, and has numbers of
-- 16 bits.
pub record IsKept {E : Type 0} (read : E → String → Option String) (label : String) (o : Operator E)
    : Type 0 where
  pub small : (i : ℕ) → contains (identities_of label o) i ≡ true → i < 2 ^ 16
  pub published : (i : ℕ) → contains (identities_of label o) i ≡ true → IsPublished read label o

nobody : (i : ℕ) → contains [] i ≢ true
unfolding contains
nobody i h = cc

-- What was listed, and what was added, has 16 bits.
small_list :
    (before : List ℕ) (after : Bool) (identity i : ℕ)
    → ((j : ℕ) → contains before j ≡ true → j < 2 ^ 16)
    → identity < 2 ^ 16
    → after ≡ (contains before i || identity == i)
    → after ≡ true
    → i < 2 ^ 16
small_list before after identity i small range e h = elim (==_cases identity i) [
  | inl same ↦ rw (← same) range
  | inr other ↦ small i (sym (or_false _) ∙ sym (rw (==_of_ne identity i other) at e) ∙ h)
]

module _ {E : Type 0} (d : Driver E) (healthy : IsHealthy d) (lawful : IsLawful d) where
  -- The identity that a label has been given.
  labelled-IsAdmitted :
      (label name : String) (identity : ℕ) (o s t : Operator E)
      → IsKept lawful.read label o
      → s.map_label_to_identities ≡ o.map_label_to_identities
      → lookup name s.map_ewname_to_identity ≡ some identity
      → identity < 2 ^ 16
      → AllLists (lawful.read o.etcd) (lawful.read s.etcd)
      → IsLabelled lawful.read s identity label t
      → IsPublished lawful.read label t
      → SameLists (lawful.read s.etcd) label (lawful.read t.etcd)
      → t.map_ewname_to_identity ≡ s.map_ewname_to_identity
      → IsAdmitted lawful.read label name o t
  labelled-IsAdmitted label name identity o s t kept labels named range before l published after
        names =
      let holds : contains (identities_of label t) identity ≡ true =
        rw (l.listed identity, ==_refl identity)
          (or_true (contains (identities_of label s) identity)) in
      elim (Option-cases (lookup label t.map_label_to_identities)) [
        | inl h ↦ absurd (nobody identity (rw h at holds))
        | inr (ids, h) ↦ record {
          identity = identity;
          named = rw names named;
          ids = ids;
          stored = published ∙ (rw h refl);
          holds = rw h at holds;
          small =
              All-of_contains (λ n. n < 2 ^ 16) ids
                (λ i found.
                  small_list (identities_of label s) (contains ids i) identity i
                    (λ j listed. kept.small j (rw labels at listed)) range (rw h at (l.listed i))
                    found);
          others = λ j under n. after j under n ∙ before j under;
        }
      ]

module _ {E : Type 0} (d : Driver E) (healthy : IsHealthy d) (lawful : IsLawful d) where
  -- What labels an identity that has been issued admits its workload.
  update-IsAdmitted :
      (label name : String) (identity : ℕ) (o s : Operator E)
      → IsKept lawful.read label o
      → IsIssued lawful.read o name identity s
      → AllLists (lawful.read o.etcd) (lawful.read s.etcd)
      → Ensures
          (λ _ t. IsAdmitted lawful.read label name o t)
          (update_identity_labels_map d identity label s)
  update-IsAdmitted label name identity o s kept issued before =
      let listed : (i : ℕ)
          → contains (identities_of label s) i ≡ contains (identities_of label o) i =
        λ i. ap (λ m. contains (value_or (lookup label m) []) i) issued.labels in
      let published : contains (identities_of label s) identity ≡ true
          → IsPublished lawful.read label s =
        λ found.
          before (kvm_opr_label_to_identities <> label)
            (starts_with_long kvm_opr_label_to_identities label)
          ∙ kept.published identity (sym (listed identity) ∙ found)
          ∙ ap (λ m. some (marshal_ids (lookup label m))) (sym issued.labels) in
      let run = update_identity_labels_map d identity label s in
      Ensures-weaken _ _ run
        (Ensures-both _ _ run
          (update_identity_labels_map-IsLabelled d healthy lawful identity label s)
          (Returns-both _ _ run
            (update_identity_labels_map-SameLists d healthy lawful identity label s)
            (update_identity_labels_map-keeps d
              (λ t. t.map_ewname_to_identity ≡ s.map_ewname_to_identity) (λ t m q. q) (λ t m q. q)
              label (λ t x value q. q) (λ t value q. q) identity s refl)))
        (λ _ t (l, (after, names)).
          labelled-IsAdmitted d healthy lawful label name identity o s t kept issued.labels
            (issued.identities name ∙ (rw (==_refl name))) issued.in_range before l
            (IsLabelled-IsPublished lawful.read s identity label t l published) after names)

  -- On a healthy store that keeps etcd's promises, an ADDED event for a policy that is not listed.
  pub added-IsAdmitted :
      (random : ℕ → ℕ) (rounds k : ℕ) (policy : ExternalWorkloadSecurityPolicy) (o : Operator E)
      → k < rounds
      → is_free (random (o.drawn + k) % 2 ^ 16) o ≡ true
      → contains_policy o.external_workload_security_policies policy ≡ false
      → IsKept lawful.read (label_of policy) o
      → Ensures
          (λ _ t. IsAdmitted lawful.read (label_of policy) policy.metadata.name o t)
          (added d random rounds policy o)
  unfolding added is_free
  added-IsAdmitted random rounds k policy o h free new kept =
      let name = policy.metadata.name in
      let o1 = record o {
        external_workload_security_policies = o.external_workload_security_policies ++ policy ∷ [];
      } in
      let run = generate_external_workload_identity d random rounds name o1 in
      rw (new, added)
        (Ensures-continue _ _ run _
          (Ensures-both _ _ run (generate-IsIssued d healthy lawful random rounds k name o1 h free)
            (generate-AllLists d healthy lawful random rounds name o1))
          (λ identity s (issued, before).
            Ensures-weaken _ _ (update_identity_labels_map d identity (label_of policy) s)
              (update-IsAdmitted (label_of policy) name identity o1 s
                (record { small = kept.small; published = kept.published }) issued before)
              (λ _ t a. record {
                identity = a.identity;
                named = a.named;
                ids = a.ids;
                stored = a.stored;
                holds = a.holds;
                small = a.small;
                others = a.others;
              })))
