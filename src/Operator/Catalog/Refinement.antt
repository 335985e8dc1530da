-- ===== src/Operator/Catalog/Refinement.antt =====
-- The operator's handler of events, and its watch loop, implement the catalog.
use kvm_service.Prelude.{
  ℕ, String, List, [], ◌∷◌, none, Bool, true, false, ◌&&◌, not, ◌≡◌, ◌≢◌, refl, sym, ◌∙◌, ◌⊎◌, inl,
  inr, ◌==◌, string_eq, All, All-append, Bool-cases, if◌then◌else◌,
}
use text.Mathlib.TextEquality.{eq_iff}
use kvm_service.Go.Outcome.{Returns}
use kvm_service.Go.Outcome.Rules.{Returns-continue, Returns-both, Returns-weaken}
use kvm_service.Types.Workloads.{
  ExternalWorkloadSecurityPolicy, K8sKubeArmorExternalWorkloadPolicyEvent,
}
use kvm_service.Etcd.Driver.{Driver}
use kvm_service.Operator.State.{Operator}
use kvm_service.Operator.Events.{contains_policy, policy_of, handle_event, handle_events}
use kvm_service.Operator.Events.Policies.{names, Distinct}
use kvm_service.Operator.Events.Inverse.{Consistent}
use kvm_service.Operator.Events.Consistent.{IsAdmissible, handle_event-Consistent}
use kvm_service.Operator.Events.Frame.{policies_after, handle_event-policies}
use kvm_service.Operator.Catalog.{Catalog, view, catalog_after, replay, IsPossible, IsStream}
use kvm_service.Operator.Catalog.View.{HasNoIdentities, is_some-view, view-replaced}
use kvm_service.Operator.Catalog.View.Removed.{view-removed}
use kvm_service.Operator.Catalog.View.Added.{
  view-added, contains_policy_of_view, All-replaced, All-removed,
}

-- The operator's policies are those of the catalog, and its maps are inverse to one another with an
-- identity for exactly the names of the policies.
pub record Represents {E : Type 0} (c : Catalog) (s : Operator E) : Type 0 where
  pub consistent : Consistent s
  pub selectors : All HasNoIdentities s.external_workload_security_policies
  pub seen : (n : String) → view s.external_workload_security_policies n ≡ c n

same_if : {A : Type 0} (b : Bool) (x : A) → x ≡ (if b then x else x)
same_if true x = refl
same_if false x = refl

All-if :
    (b : Bool) (ps qs : List ExternalWorkloadSecurityPolicy)
    → All HasNoIdentities ps
    → All HasNoIdentities qs
    → All HasNoIdentities (if b then ps else qs)
All-if true ps qs h k = h
All-if false ps qs h k = k

All-policies_after :
    (event : K8sKubeArmorExternalWorkloadPolicyEvent) (ps : List ExternalWorkloadSecurityPolicy)
    → All HasNoIdentities ps
    → All HasNoIdentities (policies_after event ps)
unfolding policy_of
All-policies_after event ps clean =
    let policy = policy_of event in
    All-if (not (event.object.status.status == "") && not (event.object.status.status == "OK")) ps _
      clean
      (All-if (event.type == "ADDED") _ _
        (All-if (contains_policy ps policy) ps _ clean
          (All-append HasNoIdentities ps (policy ∷ []) clean (refl, tt)))
        (All-if (event.type == "MODIFIED") _ _ (All-replaced ps policy refl clean)
          (All-if (event.type == "DELETED") _ _ (All-removed ps policy clean) clean)))

-- One event, on the list.
policies_after-view :
    (event : K8sKubeArmorExternalWorkloadPolicyEvent) (ps : List ExternalWorkloadSecurityPolicy)
    (n : String)
    → All HasNoIdentities ps
    → Distinct (names ps)
    → (event.type ≡ "ADDED"
        → (contains_policy ps (policy_of event) ≡ true)
          ⊎ (view ps event.object.metadata.name ≡ none))
    → view (policies_after event ps) n ≡ catalog_after event (view ps) n
unfolding catalog_after policy_of
policies_after-view event ps n clean u possible =
    elim (Bool-cases
      (not (event.object.status.status == "") && not (event.object.status.status == "OK"))) [
        | inl bad ↦ rw bad (same_if (event.object.metadata.name == n) (view ps n))
        | inr good ↦ rw good (elim (Bool-cases (event.type == "ADDED")) [
          | inl h ↦ rw h (view-added ps (policy_of event) n (possible ((eq_iff _ _).0 h)))
          | inr h1 ↦ rw h1 (elim (Bool-cases (event.type == "MODIFIED")) [
            | inl h ↦ rw h (view-replaced ps (policy_of event) n)
            | inr h2 ↦ rw h2 (elim (Bool-cases (event.type == "DELETED")) [
              | inl h ↦ rw h (view-removed ps (policy_of event) n refl clean u)
              | inr h3 ↦ rw h3 (same_if (event.object.metadata.name == n) (view ps n))
            ])
          ])
        ])
      ]

-- What is possible for the catalog is a repetition or a new name for the list.
new_or_again :
    {E : Type 0} (event : K8sKubeArmorExternalWorkloadPolicyEvent) (c : Catalog) (s : Operator E)
    → Represents c s
    → IsPossible event c
    → event.type ≡ "ADDED"
    → (contains_policy s.external_workload_security_policies (policy_of event) ≡ true)
      ⊎ ((event.object.metadata.name ≢ "")
          × (view s.external_workload_security_policies event.object.metadata.name ≡ none))
unfolding policy_of
new_or_again event c s r possible kind =
    let name = event.object.metadata.name in
    elim (possible kind) [
      | inl (nonempty, absent) ↦ inr (nonempty, r.seen name ∙ absent)
      | inr (old, known, alike) ↦ inl (
          contains_policy_of_view s.external_workload_security_policies (policy_of event) old refl
            r.selectors (r.seen name ∙ known) alike)
    ]

module _ {E : Type 0} (d : Driver E) (random : ℕ → ℕ) (rounds : ℕ) where
  handle_event-Represents :
      (event : K8sKubeArmorExternalWorkloadPolicyEvent) (c : Catalog) (s : Operator E)
      → Represents c s
      → IsPossible event c
      → Returns
          (λ _ s'. Represents (catalog_after event c) s')
          (handle_event d random rounds event s)
  unfolding catalog_after
  handle_event-Represents event c s r possible =
      let ps = s.external_workload_security_policies in
      let name = event.object.metadata.name in
      let a : IsAdmissible event s = λ kind. elim (new_or_again event c s r possible kind) [
        | inl again ↦ inl again
        | inr (nonempty, absent) ↦ inr (nonempty, sym (is_some-view ps name) ∙ (rw absent))
      ] in
      let fresh : event.type ≡ "ADDED"
          → (contains_policy ps (policy_of event) ≡ true) ⊎ (view ps name ≡ none) =
        λ kind. elim (new_or_again event c s r possible kind) [
          | inl again ↦ inl again
          | inr (nonempty, absent) ↦ inr absent
        ] in
      Returns-weaken _ _ (handle_event d random rounds event s)
        (Returns-both (λ _ t. Consistent t) _ (handle_event d random rounds event s)
          (handle_event-Consistent d random rounds event s r.consistent a)
          (handle_event-policies d random rounds s event))
        (λ _ t (consistent, listed). record {
          consistent = consistent;
          selectors = rw listed (All-policies_after event ps r.selectors);
          seen = λ n. rw listed (
              policies_after-view event ps n r.selectors r.consistent.distinct fresh
              ∙ (rw (r.seen n) refl));
        })

  -- From an operator that represents a catalog, where each event of a stream is possible after
  -- those before it, and whatever etcd answers, the handling of the stream, when it returns, leaves
  -- an operator that represents the catalog as the events change it by themselves.
  pub handle_events-Represents :
      (events : List K8sKubeArmorExternalWorkloadPolicyEvent) (c : Catalog) (s : Operator E)
      → Represents c s
      → IsStream events c
      → Returns (λ _ t. Represents (replay events c) t) (handle_events d random rounds events s)
  unfolding handle_events replay
  handle_events-Represents [] c s r stream = r
  handle_events-Represents (event ∷ events) c s r (possible, stream) =
      Returns-continue (λ _ t. Represents (catalog_after event c) t) _
        (handle_event d random rounds event s) _ (handle_event-Represents event c s r possible)
        (λ _ t r'. handle_events-Represents events (catalog_after event c) t r' stream)
