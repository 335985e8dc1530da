-- ===== src/Operator/Events/Inverse.antt =====
-- The maps between names and identities as inverses of one another, and what a new and a deleted
-- entry do to them.
pub mod Maps
use kvm_service.Prelude.{
  ℕ, zero, suc, ◌+◌, ◌%◌, ◌^◌, ◌<◌, String, List, [], ◌∷◌, ◌++◌, Option, none, some, Bool, true,
  false, ◌&&◌, not, ◌≡◌, ◌≢◌, ◌↔◌, inl, inr, ◌∙◌, GoMap, lookup, insert, delete, lookup-insert,
  lookup-delete, ◌==◌, nat_eq, string_eq, contains, contains-append, contains-singleton, Bool-cases,
  Option-cases, arith,
}
use native.Mathlib.Nat.{mod-lt}
use text.Mathlib.TextEquality.{eq_iff}
use kvm_service.Go.Outcome.{Returns}
use kvm_service.Go.Outcome.Rules.{Returns-continue}
use kvm_service.Go.Slice.{Window}
use kvm_service.Etcd.Driver.{Driver}
use kvm_service.Operator.State.{Operator}
use kvm_service.Operator.Writes.{Returns-put, Returns-delete}
use kvm_service.Operator.Identities.{is_free, enter, register, generate_external_workload_identity}
use kvm_service.Operator.Identities.Issue.{is_free-drawn}
use kvm_service.Operator.Labels.{
  forget, keep_array, remove_from_label, publish_label, update_identity_labels_map,
  unmap_label_identity,
}
use kvm_service.Operator.Labels.Frame.{update_identity_labels_map-keeps}
use kvm_service.Operator.Events.Policies.{names, Distinct, Distinct-append}

abbrev pub is_some {ℓ} : {A : Type ℓ} → Option A → Bool
is_some none = false
is_some (some a) = true

-- The two maps are inverse to one another; an identity is a uint16 and has a nonempty name; the
-- names with an identity are those of the listed policies, each once.
pub record IsConsistent (listed : List String) (id_to_name : GoMap ℕ String)
    (name_to_id : GoMap String ℕ) : Type 0 where
  pub inverse :
      (n : String) (i : ℕ) → (lookup n name_to_id ≡ some i) ↔ (lookup i id_to_name ≡ some n)
  pub named : (n : String) (i : ℕ) → lookup n name_to_id ≡ some i → n ≢ ""
  pub in_range : (n : String) (i : ℕ) → lookup n name_to_id ≡ some i → i < 2 ^ 16
  pub complete : (n : String) → is_some (lookup n name_to_id) ≡ contains listed n
  pub distinct : Distinct listed

abbrev pub Consistent : {E : Type 0} → Operator E → Type 0
Consistent s =
    IsConsistent (names s.external_workload_security_policies) s.map_identity_to_ewname
      s.map_ewname_to_identity

-- A free identity has no name.
pub lookup_of_is_free :
    {E : Type 0} (i : ℕ) (s : Operator E) (listed : List String)
    → IsConsistent listed s.map_identity_to_ewname s.map_ewname_to_identity
    → is_free i s ≡ true
    → lookup i s.map_identity_to_ewname ≡ none
unfolding is_free
lookup_of_is_free i s listed c f = elim (Option-cases (lookup i s.map_identity_to_ewname)) [
  | inl free ↦ free
  | inr (n, taken) ↦
      let empty : n ≡ "" = (eq_iff n "").0 (rw taken at f) in
      absurd (c.named n i ((c.inverse n i).1 taken) empty)
]

module _ (listed : List String) (ids : GoMap ℕ String) (nms : GoMap String ℕ)
    (c : IsConsistent listed ids nms) where
  -- A new name with an unused identity.
  pub insert-IsConsistent :
      (name : String) (i : ℕ)
      → name ≢ ""
      → i < 2 ^ 16
      → contains listed name ≡ false
      → lookup i ids ≡ none
      → IsConsistent (listed ++ name ∷ []) (insert i name ids) (insert name i nms)
  insert-IsConsistent name i nonempty range fresh free =
      let unused : is_some (lookup name nms) ≡ false = c.complete name ∙ fresh in
      record {
        inverse = λ n j.
            rw (lookup-insert name n i nms, lookup-insert i j name ids)
              (ground
                (arith, c.inverse n j, c.inverse name j, c.inverse n i, eq_iff name n, unused));
        named = λ n j. rw (lookup-insert name n i nms) (ground (arith, c.named n j, eq_iff name n));
        in_range = λ n j. rw (lookup-insert name n i nms) (ground (arith, c.in_range n j));
        complete = λ n.
            rw
              (
                lookup-insert name n i nms,
                contains-append listed (name ∷ []) n,
                contains-singleton name n,
              )
              (ground (arith, c.complete n));
        distinct = Distinct-append listed name c.distinct fresh;
      }

  -- A name leaves with its identity.
  pub delete-IsConsistent :
      (name : String) (i : ℕ) (rest : List String)
      → lookup name nms ≡ some i
      → ((n : String) → contains rest n ≡ (contains listed n && not (name == n)))
      → Distinct rest
      → IsConsistent rest (delete i ids) (delete name nms)
  delete-IsConsistent name i rest held left u = record {
    inverse = λ n j.
        rw (lookup-delete name n nms, lookup-delete i j ids)
          (ground (
            arith,
            c.inverse n j,
            c.inverse name j,
            c.inverse n i,
            c.inverse name i,
            eq_iff name n,
          ));
    named = λ n j. rw (lookup-delete name n nms) (ground (arith, c.named n j));
    in_range = λ n j. rw (lookup-delete name n nms) (ground (arith, c.in_range n j));
    complete = λ n. rw (lookup-delete name n nms, left n) (ground (arith, c.complete n));
    distinct = u;
  }
