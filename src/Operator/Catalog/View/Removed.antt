-- ===== src/Operator/Catalog/View/Removed.antt =====
-- What the removal of a policy does to the view of the policies.
use mathlib.Core.Option.{get_or as value_or}
use kvm_service.Prelude.{
  String, List, [], ◌∷◌, Option, none, some, false, ◌&&◌, ◌≡◌, ◌≢◌, refl, sym, ◌∙◌, inl, inr, ◌==◌,
  string_eq, and_left, and_right, arith, if◌then◌else◌, All, ==_cases, ==_of_ne, ==_refl,
  Option-cases,
}
use text.Mathlib.TextEquality.{eq_iff}
use kvm_service.Types.Workloads.{ExternalWorkloadSecurityPolicy}
use kvm_service.Operator.Events.{maps_equal, deep_equal, remove_policy}
use kvm_service.Operator.Events.Policies.{
  names, Distinct, search_cases, not_behind, contains_of_remove_policy,
}
use kvm_service.Operator.Events.Inverse.{is_some}
use kvm_service.Operator.Catalog.{Labels, view, once_deleted}
use kvm_service.Operator.Catalog.View.{HasNoIdentities, labels_of, is_some-view}

-- A policy that equals one without identities has its labels.
pub deep_equal-labels :
    (p q : ExternalWorkloadSecurityPolicy)
    → HasNoIdentities p
    → HasNoIdentities q
    → deep_equal p q
      ≡ (maps_equal (labels_of p) (labels_of q) && p.metadata.name == q.metadata.name)
unfolding deep_equal
deep_equal-labels p q e f = rw (e, f) (ground arith)

is_none : (o : Option Labels) → is_some o ≡ false → o ≡ none
is_none none h = refl
is_none (some a) h = cc

view-remove_policy :
    (ps qs : List ExternalWorkloadSecurityPolicy) (p : ExternalWorkloadSecurityPolicy) (n : String)
    → HasNoIdentities p
    → All HasNoIdentities ps
    → Distinct (names ps)
    → remove_policy ps p ≡ some qs
    → view qs n
      ≡ (if p.metadata.name == n then once_deleted (labels_of p) (view ps n) else view ps n)
unfolding remove_policy view
view-remove_policy [] qs p n e clean u h = cc
view-remove_policy (q ∷ ps) qs p n e (f, clean) (fresh, u) h =
    let absent : view ps q.metadata.name ≡ none = is_none _ (is_some-view ps _ ∙ fresh) in
    elim (search_cases (deep_equal p q) ps qs q (remove_policy ps p) h) [
      | inl (same, e') ↦
          let both = sym (deep_equal-labels p q e f) ∙ same in
          let alike = maps_equal (labels_of p) (labels_of q) in
          let name : p.metadata.name ≡ q.metadata.name =
            (eq_iff _ _).0 (and_right alike (p.metadata.name == q.metadata.name) both) in
          let equal = and_left alike (p.metadata.name == q.metadata.name) both in
          elim (==_cases q.metadata.name n) [
            | inl here ↦
                let gone : view ps n ≡ none = rw (← here) absent in
                rw (← e', name, here, ==_refl n, gone, equal)
            | inr away ↦ rw (← e', name, ==_of_ne q.metadata.name n away)
          ]
      | inr (other, (r, found, e')) ↦
          let listed = contains_of_remove_policy ps r p found in
          let differ : p.metadata.name ≢ q.metadata.name = λ same. cc (listed, fresh, same) in
          rw (← e', view-remove_policy ps r p n e clean u found)
            (elim (==_cases q.metadata.name n) [
              | inl here ↦
                  rw (here, ==_refl n, ==_of_ne p.metadata.name n (λ x. differ (x ∙ sym here)))
              | inr away ↦ rw (==_of_ne q.metadata.name n away)
            ])
    ]

-- No policy is removed where the name has none, or one of other labels.
view_of_remove_policy :
    (ps : List ExternalWorkloadSecurityPolicy) (p : ExternalWorkloadSecurityPolicy)
    → HasNoIdentities p
    → All HasNoIdentities ps
    → remove_policy ps p ≡ none
    → once_deleted (labels_of p) (view ps p.metadata.name) ≡ view ps p.metadata.name
unfolding remove_policy view
view_of_remove_policy [] p e clean h = refl
view_of_remove_policy (q ∷ ps) p e (f, clean) h =
    let (other, missing) = not_behind (deep_equal p q) ps q (remove_policy ps p) h in
    let unlike = sym (deep_equal-labels p q e f) ∙ other in
    elim (==_cases q.metadata.name p.metadata.name) [
      | inl same ↦
          let unequal : maps_equal (labels_of p) (labels_of q) ≡ false =
            ground (arith, eq_iff p.metadata.name q.metadata.name) in
          rw (same, ==_refl p.metadata.name, unequal)
      | inr differ ↦ rw (==_of_ne _ _ differ) (view_of_remove_policy ps p e clean missing)
    ]

pub view-removed :
    (ps : List ExternalWorkloadSecurityPolicy) (p : ExternalWorkloadSecurityPolicy) (n : String)
    → HasNoIdentities p
    → All HasNoIdentities ps
    → Distinct (names ps)
    → view (value_or (remove_policy ps p) ps) n
      ≡ (if p.metadata.name == n then once_deleted (labels_of p) (view ps n) else view ps n)
view-removed ps p n e clean u = elim (Option-cases (remove_policy ps p)) [
  | inr (qs, found) ↦ rw found (view-remove_policy ps qs p n e clean u found)
  | inl missing ↦ rw missing (elim (==_cases p.metadata.name n) [
    | inl same ↦
        rw (same, ==_refl n) (sym (rw same at (view_of_remove_policy ps p e clean missing)))
    | inr other ↦ rw (==_of_ne p.metadata.name n other)
  ])
]
