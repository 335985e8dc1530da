-- ===== src/Operator/Catalog/View.antt =====
-- What the handlers of events do to the view of the policies.
pub mod Removed
pub mod Added
use mathlib.Core.Option.{get_or as value_or, some_inj}
use kvm_service.Prelude.{
  or_else-none, String, List, [], ◌∷◌, ◌++◌, Option, none, some, true, false, ◌&&◌, ◌≡◌, ◌≢◌, refl,
  sym, ◌∙◌, ◌⊎◌, inl, inr, ◌==◌, string_eq, contains, and_left, and_right, arith, if◌then◌else◌,
  All, ==_cases, ==_of_ne, ==_refl, Bool-cases, Option-cases, or_else,
}
use text.Mathlib.TextEquality.{eq_iff}
use kvm_service.Types.Workloads.{ExternalWorkloadSecurityPolicy}
use kvm_service.Operator.Events.{
  maps_equal, deep_equal, contains_policy, replace_policy, remove_policy,
}
use kvm_service.Operator.Events.Policies.{
  names, Distinct, name-deep_equal, search_cases, not_behind, contains_of_remove_policy,
}
use kvm_service.Operator.Events.Inverse.{is_some}
use kvm_service.Operator.Catalog.{Labels, view, once_added, once_modified, once_deleted}

-- The events make policies whose selector lists no identities.
abbrev pub HasNoIdentities : ExternalWorkloadSecurityPolicy → Type 0
HasNoIdentities p = p.metadata.node_selector.identities ≡ []

abbrev pub labels_of : ExternalWorkloadSecurityPolicy → Labels
labels_of p = p.metadata.node_selector.match_labels

-- The view has the names of the list.
pub is_some-view :
    (ps : List ExternalWorkloadSecurityPolicy) (n : String)
    → is_some (view ps n) ≡ contains (names ps) n
unfolding view contains
is_some-view [] n = refl
is_some-view (p ∷ ps) n = ground (arith, is_some-view ps n)

pub view-append :
    (ps : List ExternalWorkloadSecurityPolicy) (p : ExternalWorkloadSecurityPolicy) (n : String)
    → view (ps ++ p ∷ []) n
      ≡ or_else (view ps n) (if p.metadata.name == n then some (labels_of p) else none)
unfolding view
view-append [] p n = refl
view-append (q ∷ ps) p n = ground (arith, view-append ps p n)

view-replace_policy :
    (ps qs : List ExternalWorkloadSecurityPolicy) (p : ExternalWorkloadSecurityPolicy) (n : String)
    → replace_policy ps p ≡ some qs
    → view qs n
      ≡ (if p.metadata.name == n then once_modified (labels_of p) (view ps n) else view ps n)
unfolding replace_policy view
view-replace_policy [] qs p n h = cc
view-replace_policy (q ∷ ps) qs p n h =
    elim (search_cases (q.metadata.name == p.metadata.name) (p ∷ ps) qs q (replace_policy ps p) h) [
      | inl (same, e) ↦ rw (← e, (eq_iff _ _).0 same) (ground arith)
      | inr (other, (r, found, e)) ↦
          rw (← e, view-replace_policy ps r p n found)
            (ground (
              arith,
              eq_iff q.metadata.name p.metadata.name,
              eq_iff q.metadata.name n,
              eq_iff p.metadata.name n,
            ))
    ]

-- No policy is replaced where the name has none.
view_of_replace_policy :
    (ps : List ExternalWorkloadSecurityPolicy) (p : ExternalWorkloadSecurityPolicy)
    → replace_policy ps p ≡ none
    → view ps p.metadata.name ≡ none
unfolding replace_policy view
view_of_replace_policy [] p h = refl
view_of_replace_policy (q ∷ ps) p h =
    let (other, missing) = not_behind (q.metadata.name == p.metadata.name) (p ∷ ps) q _ h in
    rw (other, view_of_replace_policy ps p missing)

pub view-replaced :
    (ps : List ExternalWorkloadSecurityPolicy) (p : ExternalWorkloadSecurityPolicy) (n : String)
    → view (value_or (replace_policy ps p) ps) n
      ≡ (if p.metadata.name == n then once_modified (labels_of p) (view ps n) else view ps n)
view-replaced ps p n = elim (Option-cases (replace_policy ps p)) [
  | inr (qs, found) ↦ rw found (view-replace_policy ps qs p n found)
  | inl missing ↦ rw missing (elim (==_cases p.metadata.name n) [
    | inl same ↦
        let absent : view ps n ≡ none = rw (← same) (view_of_replace_policy ps p missing) in
        rw (absent, same, ==_refl n)
    | inr other ↦ rw (==_of_ne p.metadata.name n other)
  ])
]
