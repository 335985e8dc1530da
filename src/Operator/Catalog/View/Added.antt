-- ===== src/Operator/Catalog/View/Added.antt =====
-- What the addition of a policy does to the view, and what no event adds to the policies.
use mathlib.Core.Option.{get_or as value_or, some_inj}
use kvm_service.Prelude.{
  or_else-none, String, List, [], ◌∷◌, ◌++◌, none, some, true, false, ◌≡◌, ◌⊎◌, inl, inr, ◌==◌,
  string_eq, arith, if◌then◌else◌, All, ==_cases, ==_of_ne, ==_refl, Bool-cases, Option-cases,
}
use kvm_service.Types.Workloads.{ExternalWorkloadSecurityPolicy}
use kvm_service.Operator.Events.{
  maps_equal, deep_equal, contains_policy, replace_policy, remove_policy,
}
use kvm_service.Operator.Events.Policies.{name-deep_equal}
use kvm_service.Operator.Catalog.{Labels, view, once_added}
use kvm_service.Operator.Catalog.View.{HasNoIdentities, labels_of, view-append}
use kvm_service.Operator.Catalog.View.Removed.{deep_equal-labels}

-- A policy that the list has makes its name known.
view_of_contains_policy :
    (ps : List ExternalWorkloadSecurityPolicy) (p : ExternalWorkloadSecurityPolicy)
    → contains_policy ps p ≡ true
    → (old : Labels) × (view ps p.metadata.name ≡ some old)
unfolding contains_policy view
view_of_contains_policy [] p h = cc
view_of_contains_policy (q ∷ ps) p h = elim (==_cases q.metadata.name p.metadata.name) [
  | inl same ↦ (labels_of q, rw (same, ==_refl p.metadata.name))
  | inr differ ↦
      let unequal : deep_equal q p ≡ false = elim (Bool-cases (deep_equal q p)) [
        | inl equal ↦ absurd (differ (name-deep_equal q p equal))
        | inr other ↦ other
      ] in
      let (old, found) = view_of_contains_policy ps p (rw unequal at h) in
      (old, rw (==_of_ne _ _ differ) found)
]

-- A name that has the policy's labels stands for a policy that the list has.
pub contains_policy_of_view :
    (ps : List ExternalWorkloadSecurityPolicy) (p : ExternalWorkloadSecurityPolicy) (old : Labels)
    → HasNoIdentities p
    → All HasNoIdentities ps
    → view ps p.metadata.name ≡ some old
    → maps_equal old (labels_of p) ≡ true
    → contains_policy ps p ≡ true
unfolding contains_policy view
contains_policy_of_view [] p old e clean h alike = cc
contains_policy_of_view (q ∷ ps) p old e (f, clean) h alike =
    elim (==_cases q.metadata.name p.metadata.name) [
      | inl same ↦
          let labels : labels_of q ≡ old = some_inj.0 (rw (same, ==_refl p.metadata.name) at h) in
          rw (deep_equal-labels q p f e, labels, alike, same, ==_refl p.metadata.name)
      | inr differ ↦
          let further =
            contains_policy_of_view ps p old e clean (rw (==_of_ne _ _ differ) at h) alike in
          ground (arith, further)
    ]

pub view-added :
    (ps : List ExternalWorkloadSecurityPolicy) (p : ExternalWorkloadSecurityPolicy) (n : String)
    → (contains_policy ps p ≡ true) ⊎ (view ps p.metadata.name ≡ none)
    → view (if contains_policy ps p then ps else ps ++ p ∷ []) n
      ≡ (if p.metadata.name == n then once_added (labels_of p) (view ps n) else view ps n)
view-added ps p n possible = elim (Bool-cases (contains_policy ps p)) [
  | inl again ↦
      let (old, known) = view_of_contains_policy ps p again in
      rw again (elim (==_cases p.metadata.name n) [
        | inl same ↦
            let seen : view ps n ≡ some old = rw (← same) known in rw (same, ==_refl n, seen)
        | inr other ↦ rw (==_of_ne p.metadata.name n other)
      ])
  | inr new ↦
      rw (new, view-append ps p n)
        (elim (==_cases p.metadata.name n) [
          | inl same ↦
              let absent : view ps n ≡ none =
                rw (← same) (elim possible [ inl again ↦ cc (again, new) | inr h ↦ h ]) in
              rw (same, ==_refl n, absent)
          | inr other ↦ rw (==_of_ne p.metadata.name n other) (or_else-none (view ps n))
        ])
]

pub All-replaced :
    (ps : List ExternalWorkloadSecurityPolicy) (p : ExternalWorkloadSecurityPolicy)
    → HasNoIdentities p
    → All HasNoIdentities ps
    → All HasNoIdentities (value_or (replace_policy ps p) ps)
unfolding replace_policy
All-replaced [] p e clean = tt
All-replaced (q ∷ ps) p e (f, clean) = elim (Bool-cases (q.metadata.name == p.metadata.name)) [
  | inl same ↦ rw same (e, clean)
  | inr other ↦
      let rest = All-replaced ps p e clean in
      rw other (elim (Option-cases (replace_policy ps p)) [
        | inl missing ↦ rw missing (f, clean)
        | inr (qs, found) ↦ rw found (f, rw found at rest)
      ])
]

pub All-removed :
    (ps : List ExternalWorkloadSecurityPolicy) (p : ExternalWorkloadSecurityPolicy)
    → All HasNoIdentities ps
    → All HasNoIdentities (value_or (remove_policy ps p) ps)
unfolding remove_policy
All-removed [] p clean = tt
All-removed (q ∷ ps) p (f, clean) = elim (Bool-cases (deep_equal p q)) [
  | inl same ↦ rw same clean
  | inr other ↦
      let rest = All-removed ps p clean in
      rw other (elim (Option-cases (remove_policy ps p)) [
        | inl missing ↦ rw missing (f, clean)
        | inr (qs, found) ↦ rw found (f, rw found at rest)
      ])
]
