-- ===== src/Operator/Events/Inverse/Maps.antt =====
-- What the methods of the operator do to the maps between names and identities, whatever etcd
-- answers.
use kvm_service.Prelude.{
  ℕ, zero, suc, ◌+◌, ◌%◌, ◌^◌, ◌<◌, String, List, [], ◌∷◌, ◌++◌, Option, none, some, true, false,
  ◌≡◌, ◌≢◌, inl, inr, ◌∙◌, nat_eq, string_eq, contains, Bool-cases, arith,
}
use native.Mathlib.Nat.{mod-lt}
use kvm_service.Go.Outcome.{Returns}
use kvm_service.Go.Outcome.Rules.{Returns-continue}
use kvm_service.Go.Slice.{Window}
use kvm_service.Etcd.Driver.{Driver}
use kvm_service.Operator.State.{Operator}
use kvm_service.Operator.Writes.{Returns-put, Returns-delete}
use kvm_service.Operator.Identities.{is_free, enter, register, generate_external_workload_identity}
use kvm_service.Operator.Identities.Issue.{is_free-drawn}
use kvm_service.Operator.Labels.{
  forget, keep_array, remove_from_label, publish_label, update_identity_labels_map,
  unmap_label_identity,
}
use kvm_service.Operator.Labels.Frame.{update_identity_labels_map-keeps}
use kvm_service.Operator.Events.Policies.{names}
use kvm_service.Operator.Events.Inverse.{
  IsConsistent, Consistent, lookup_of_is_free, insert-IsConsistent,
}

-- The listed names and the maps of a state, stated apart from the rest of it.
abbrev pub Maps : {E : Type 0} → List String → Operator E → Type 0
Maps listed s =
    (names s.external_workload_security_policies ≡ listed)
    × IsConsistent listed s.map_identity_to_ewname s.map_ewname_to_identity

pub Consistent-of_Maps :
    {E : Type 0} (listed : List String) (s : Operator E) → Maps listed s → Consistent s
Consistent-of_Maps listed s (e, c) = rw e c

module _ {E : Type 0} (d : Driver E) (listed : List String) where
  publish_label-Maps :
      (label : String) (s : Operator E)
      → Maps listed s
      → Returns (λ _ s'. Maps listed s') (publish_label d label s)
  unfolding publish_label
  publish_label-Maps label s h = Returns-put d (Maps listed) _ _ s h

  pub update_identity_labels_map-Maps :
      (identity : ℕ) (label : String) (s : Operator E)
      → Maps listed s
      → Returns (λ _ s'. Maps listed s') (update_identity_labels_map d identity label s)
  update_identity_labels_map-Maps identity label s h =
      update_identity_labels_map-keeps d (Maps listed) (λ t m q. q) (λ t m q. q) label
        (λ t x value q. q) (λ t value q. q) identity s h

  keep_array-Maps :
      (label : String) (r : Option Window) (s : Operator E)
      → Maps listed s
      → Returns (λ _ s'. Maps listed s') (keep_array label r s)
  unfolding keep_array
  keep_array-Maps label none s h = tt
  keep_array-Maps label (some w) s h = h

  remove_from_label-Maps :
      (identity : ℕ) (label : String) (s : Operator E)
      → Maps listed s
      → Returns (λ _ s'. Maps listed s') (remove_from_label identity label s)
  unfolding remove_from_label
  remove_from_label-Maps identity label s h = keep_array-Maps label _ s h

  -- After the maps have been deleted from, the rest of UnMapLabelIdentity leaves them alone.
  pub unmap_label_identity-Maps :
      (identity : ℕ) (ew_name label : String) (s : Operator E)
      → Maps listed (forget identity ew_name s)
      → Returns (λ _ s'. Maps listed s') (unmap_label_identity d identity ew_name label s)
  unfolding unmap_label_identity
  unmap_label_identity-Maps identity ew_name label s h =
      let P = λ (_ : Unit {0}) (s' : Operator E). Maps listed s' in
      Returns-continue P P _ _ (Returns-delete d (Maps listed) _ _ h) λ _ s1 h1.
        Returns-continue P P _ _ (Returns-delete d (Maps listed) _ s1 h1) λ _ s2 h2.
          Returns-continue P P _ _ (Returns-delete d (Maps listed) _ s2 h2) λ _ s3 h3.
            Returns-continue P P _ _ (remove_from_label-Maps identity label s3 h3)
              λ _ s4 h4. publish_label-Maps label s4 h4

module _ {E : Type 0} (d : Driver E) (listed : List String) (name : String) (nonempty : name ≢ "")
    (fresh : contains listed name ≡ false) where
  -- The maps before an identity for the listed name is found.
  abbrev pub Awaiting : Operator E → Type 0
  Awaiting s =
      (names s.external_workload_security_policies ≡ listed ++ name ∷ [])
      × IsConsistent listed s.map_identity_to_ewname s.map_ewname_to_identity

  register-Maps :
      (identity : ℕ) (s : Operator E)
      → identity < 2 ^ 16
      → is_free identity s ≡ true
      → Awaiting s
      → Returns (λ _ s'. Maps (listed ++ name ∷ []) s') (register d identity name s)
  unfolding register enter
  register-Maps identity s range free (e, c) =
      let P = λ (_ : Unit {0}) (s' : Operator E). Maps (listed ++ name ∷ []) s' in
      let h : Maps (listed ++ name ∷ []) (enter identity name s) = (
        e,
        insert-IsConsistent listed s.map_identity_to_ewname s.map_ewname_to_identity c name identity
            nonempty range fresh (lookup_of_is_free identity s listed c free),
      ) in
      Returns-continue P (λ _ s'. Maps (listed ++ name ∷ []) s') _ _
        (Returns-put d (Maps (listed ++ name ∷ [])) _ _ _ h)
        λ _ s1 h1.
          Returns-continue P (λ _ s'. Maps (listed ++ name ∷ []) s') _ _
            (Returns-put d (Maps (listed ++ name ∷ [])) _ _ s1 h1) λ _ s2 h2. h2

  pub generate-Maps :
      (random : ℕ → ℕ) (rounds : ℕ) (s : Operator E)
      → Awaiting s
      → Returns
          (λ _ s'. Maps (listed ++ name ∷ []) s')
          (generate_external_workload_identity d random rounds name s)
  unfolding generate_external_workload_identity
  generate-Maps random zero s h = tt
  generate-Maps random (suc rounds) s h =
      let identity = random s.drawn % 2 ^ 16 in
      let s' = record s { drawn = s.drawn + 1 } in
      elim (Bool-cases (is_free identity s)) [
        | inl free ↦
            rw (free, Returns, generate_external_workload_identity)
              (register-Maps identity s' (mod-lt _ (omega arith))
                (is_free-drawn identity (s.drawn + 1) s ∙ free) h)
        | inr taken ↦
            rw (taken, Returns, generate_external_workload_identity)
              (generate-Maps random rounds s' h)
      ]
