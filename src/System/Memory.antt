-- ===== src/System/Memory.antt =====
-- The operator's maps (KVMSOperator in src/operator/core/kvmOperator.go): lists and identities of 16 bits.
use mathlib.Core.Option.{get_or as value_or, some_inj}
use kvm_service.Prelude.{
  ℕ, ◌^◌, ◌<◌, String, List, [], none, some, ◌≡◌, refl, sym, subst, ◌∙◌, ◌==◌, GoMap, lookup,
  insert, delete, lookup-insert, lookup-delete, nat_eq, string_eq, Bool-cases, Option-cases, inl,
  inr,
}
use kvm_service.System.Lists.{Small}

-- The lists in memory, and the identities of the names.
pub record AreSmall (lists : GoMap String (List ℕ)) (identities : GoMap String ℕ) : Type 0 where
  pub small : (label : String) (ids : List ℕ) → lookup label lists ≡ some ids → Small ids
  pub in_range : (name : String) (i : ℕ) → lookup name identities ≡ some i → i < 2 ^ 16

pub held-Small :
    (lists : GoMap String (List ℕ)) (identities : GoMap String ℕ) (label : String)
    → AreSmall lists identities
    → Small (value_or (lookup label lists) [])
held-Small lists identities label a = elim (Option-cases (lookup label lists)) [
  | inl h ↦ rw h tt
  | inr (ids, h) ↦ rw h (a.small label ids h)
]

pub insert-AreSmall :
    (lists : GoMap String (List ℕ)) (identities : GoMap String ℕ) (label : String) (ids : List ℕ)
    → AreSmall lists identities
    → Small ids
    → AreSmall (insert label ids lists) identities
insert-AreSmall lists identities label ids a small = record {
  small = λ l found h. elim (Bool-cases (label == l)) [
    | inl same ↦
        subst Small (some_inj.0 (sym (rw same refl) ∙ sym (lookup-insert label l ids lists) ∙ h))
          small
    | inr other ↦ a.small l found (sym (rw other refl) ∙ sym (lookup-insert label l ids lists) ∙ h)
  ];
  in_range = a.in_range;
}

pub delete-AreSmall :
    (lists : GoMap String (List ℕ)) (identities : GoMap String ℕ) (name : String)
    → AreSmall lists identities
    → AreSmall lists (delete name identities)
delete-AreSmall lists identities name a = record {
  small = a.small;
  in_range = λ n i h. elim (Bool-cases (name == n)) [
    | inl same ↦
        let q : none ≡ some i = sym (rw same refl) ∙ sym (lookup-delete name n identities) ∙ h in cc
    | inr other ↦ a.in_range n i (sym (rw other refl) ∙ sym (lookup-delete name n identities) ∙ h)
  ];
}

pub enter-AreSmall :
    (lists : GoMap String (List ℕ)) (identities : GoMap String ℕ) (name : String) (identity : ℕ)
    → identity < 2 ^ 16
    → AreSmall lists identities
    → AreSmall lists (insert name identity identities)
enter-AreSmall lists identities name identity range a = record {
  small = a.small;
  in_range = λ n i h. elim (Bool-cases (name == n)) [
    | inl same ↦
        subst (λ k. k < 2 ^ 16)
          (some_inj.0 (sym (rw same refl) ∙ sym (lookup-insert name n identity identities) ∙ h))
          range
    | inr other ↦
        a.in_range n i (sym (rw other refl) ∙ sym (lookup-insert name n identity identities) ∙ h)
  ];
}
