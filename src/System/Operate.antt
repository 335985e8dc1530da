-- ===== src/System/Operate.antt =====
-- The operator's handler of events keeps the lists of identities readable
-- (src/operator/core/crdHandler.go).
use mathlib.Core.Option.{get_or as value_or}
use native.Mathlib.Nat.{mod-lt}
use kvm_service.Prelude.{
  ℕ, zero, suc, ◌+◌, ◌%◌, ◌^◌, ◌<◌, String, [], ◌∷◌, ◌++◌, Option, none, some, ◌≡◌, refl, apart,
  ◌<>◌, ◌==◌, not, ◌&&◌, lookup, nat_eq, string_eq, All-append, Bool-cases, Option-cases, inl, inr,
  arith,
}
use kvm_service.Constants.{
  kvm_opr_identity_to_ewname, kvm_opr_ewname_to_identity, kvm_opr_identity_to_label,
}
use kvm_service.Go.Outcome.{Returns}
use kvm_service.Go.Outcome.Rules.{Returns-continue, Returns-if}
use kvm_service.Go.Strconv.{format_uint}
use kvm_service.Go.Slice.{Window}
use kvm_service.Go.Slice.Kept.{remove_identity-All}
use kvm_service.Types.Workloads.{
  ExternalWorkloadSecurityPolicy, K8sKubeArmorExternalWorkloadPolicyEvent,
}
use kvm_service.Etcd.Driver.{Driver, IsLawful, IsHealthy}
use kvm_service.Operator.State.{Operator}
use kvm_service.Operator.Writes.{Returns-put, Returns-delete}
use kvm_service.Operator.Identities.{is_free, enter, register, generate_external_workload_identity}
use kvm_service.Operator.Labels.{
  forget, write_through, keep_array, remove_from_label, publish_label, find, add_to_label,
  get_ew_identity_from_name, update_identity_labels_map, unmap_label_identity,
}
use kvm_service.Operator.Events.{
  contains_policy, replace_policy, remove_policy, policy_of, added, modified, deleted, handle_event,
}
use kvm_service.System.Lists.{Small, Listed, put-Listed, delete-Listed, put_other-Listed}
use kvm_service.System.Memory.{
  AreSmall, held-Small, insert-AreSmall, delete-AreSmall, enter-AreSmall,
}

module _ {E : Type 0} (d : Driver E) (healthy : IsHealthy d) (lawful : IsLawful d) where
  abbrev pub Sound : Operator E → Type 0
  Sound s =
      Listed d healthy lawful s.etcd × AreSmall s.map_label_to_identities s.map_ewname_to_identity

  publish_label-Sound :
      (label : String) (s : Operator E)
      → Sound s
      → Returns (λ _ t. Sound t) (publish_label d label s)
  unfolding publish_label
  publish_label-Sound label s (lists, a) = Returns-put d Sound _ _ s (
    put-Listed d healthy lawful label (lookup label s.map_label_to_identities) none s.etcd
        (held-Small _ _ label a) lists,
    a,
  )

  update-Sound :
      (identity : ℕ) (label : String) (s : Operator E)
      → identity < 2 ^ 16
      → Sound s
      → Returns (λ _ t. Sound t) (update_identity_labels_map d identity label s)
  unfolding update_identity_labels_map add_to_label apart
  update-Sound identity label s range (lists, a) =
      Returns-continue (λ _ t. Sound t) (λ _ t. Sound t) _ _
        (Returns-put d Sound _ _ _ (
          put_other-Listed d healthy lawful kvm_opr_identity_to_label (format_uint identity) label
              s.etcd refl lists,
          a,
        ))
        (λ _ t (lists', a').
          let ids = value_or (lookup label t.map_label_to_identities) [] in
          elim (Bool-cases (find ids identity).1) [
            | inl old ↦ rw (old, add_to_label) (lists', a')
            | inr new ↦
                rw (new, add_to_label)
                  (publish_label-Sound label _ (
                    lists',
                    insert-AreSmall _ _ label (ids ++ identity ∷ []) a'
                        (All-append _ ids (identity ∷ []) (held-Small _ _ label a') (range, tt)),
                  ))
          ])

  keep_array-Sound :
      (label : String) (r : Option Window) (s : Operator E)
      → ((w : Window) → r ≡ some w → Small w.array)
      → Sound s
      → Returns (λ _ t. Sound t) (keep_array label r s)
  unfolding keep_array write_through
  keep_array-Sound label none s small h = tt
  keep_array-Sound label (some w) s small (lists, a) =
      elim (Option-cases (lookup label s.map_label_to_identities)) [
        | inl h ↦ rw (h, write_through) (lists, a)
        | inr (ids, h) ↦
            rw (h, write_through) (lists, insert-AreSmall _ _ label w.array a (small w refl))
      ]

  unmap-Sound :
      (identity : ℕ) (ew_name label : String) (s : Operator E)
      → Sound s
      → Returns (λ _ t. Sound t) (unmap_label_identity d identity ew_name label s)
  unfolding unmap_label_identity forget remove_from_label
  unmap-Sound identity ew_name label s (lists, a) =
      let P = λ (_ : Unit {0}) (t : Operator E). Sound t in
      let delete = λ (key : String) (t : Operator E) (h : Sound t).
        Returns-delete d Sound key t (delete-Listed d healthy lawful key t.etcd h.0, h.1) in
      Returns-continue P P _ _
        (delete (kvm_opr_identity_to_ewname <> format_uint identity) (forget identity ew_name s)
          (lists, delete-AreSmall _ _ ew_name a))
        λ _ s1 h1. Returns-continue P P _ _ (delete _ s1 h1) λ _ s2 h2.
          Returns-continue P P _ _ (delete _ s2 h2) λ _ s3 h3.
            Returns-continue P P _ _
              (keep_array-Sound label _ s3
                (λ w found.
                  remove_identity-All (λ n. n < 2 ^ 16) (omega arith) identity _ w
                    (held-Small _ _ label h3.1) found)
                h3)
              λ _ s4 h4. publish_label-Sound label s4 h4

  generate-Sound :
      (random : ℕ → ℕ) (rounds : ℕ) (name : String) (s : Operator E)
      → Sound s
      → Returns
          (λ i t. (i < 2 ^ 16) × Sound t)
          (generate_external_workload_identity d random rounds name s)
  unfolding generate_external_workload_identity register enter apart
  generate-Sound random zero name s h = tt
  generate-Sound random (suc rounds) name s (lists, a) =
      let identity = random s.drawn % 2 ^ 16 in
      let range : identity < 2 ^ 16 = mod-lt _ (omega arith) in
      elim (Bool-cases (is_free identity s)) [
        | inl free ↦
            rw (free, Returns, generate_external_workload_identity)
              (Returns-continue (λ _ t. Sound t) (λ i t. (i < 2 ^ 16) × Sound t) _ _
                (Returns-put d Sound _ _ _ (
                  put_other-Listed d healthy lawful kvm_opr_identity_to_ewname
                      (format_uint identity) name s.etcd refl lists,
                  enter-AreSmall _ _ name identity range a,
                ))
                (λ _ s1 (lists1, a1).
                  Returns-continue (λ _ t. Sound t) (λ i t. (i < 2 ^ 16) × Sound t) _ _
                    (Returns-put d Sound _ _ s1 (
                      put_other-Listed d healthy lawful kvm_opr_ewname_to_identity name
                          (format_uint identity) s1.etcd refl lists1,
                      a1,
                    ))
                    (λ _ s2 h2. (range, h2))))
        | inr taken ↦
            rw (taken, Returns, generate_external_workload_identity)
              (generate-Sound random rounds name (record s { drawn = s.drawn + 1 }) (lists, a))
      ]

  added-Sound :
      (random : ℕ → ℕ) (rounds : ℕ) (policy : ExternalWorkloadSecurityPolicy) (s : Operator E)
      → Sound s
      → Returns (λ _ t. Sound t) (added d random rounds policy s)
  unfolding added
  added-Sound random rounds policy s h =
      Returns-if (λ _ t. Sound t) (contains_policy s.external_workload_security_policies policy) _ _
        (λ _. h)
        (λ _.
          Returns-continue (λ i t. (i < 2 ^ 16) × Sound t) (λ _ t. Sound t) _ _
            (generate-Sound random rounds policy.metadata.name _ h)
            (λ identity t (range, h'). update-Sound identity _ t range h'))

  -- The identity that a name has, 0 where it has none.
  identity-range :
      (name : String) (s : Operator E) → Sound s → get_ew_identity_from_name name s < 2 ^ 16
  unfolding get_ew_identity_from_name
  identity-range name s (_, a) = elim (Option-cases (lookup name s.map_ewname_to_identity)) [
    | inl h ↦ rw h (omega arith)
    | inr (i, h) ↦ rw h (a.in_range name i h)
  ]

  modified-Sound :
      (random : ℕ → ℕ) (rounds : ℕ) (policy : ExternalWorkloadSecurityPolicy) (s : Operator E)
      → Sound s
      → Returns (λ _ t. Sound t) (modified d random rounds policy s)
  unfolding modified
  modified-Sound random rounds policy s h =
      elim (Option-cases (replace_policy s.external_workload_security_policies policy)) [
        | inl unknown ↦ rw (unknown, modified) h
        | inr (ps, found) ↦
            let s' = record s { external_workload_security_policies = ps } in
            rw (found, modified)
              (update-Sound (get_ew_identity_from_name policy.metadata.name s') _ s'
                (identity-range policy.metadata.name s' h) h)
      ]

  deleted-Sound :
      (random : ℕ → ℕ) (rounds : ℕ) (policy : ExternalWorkloadSecurityPolicy) (s : Operator E)
      → Sound s
      → Returns (λ _ t. Sound t) (deleted d random rounds policy s)
  unfolding deleted
  deleted-Sound random rounds policy s h =
      elim (Option-cases (remove_policy s.external_workload_security_policies policy)) [
        | inl unknown ↦ rw (unknown, deleted) h
        | inr (ps, found) ↦
            let s' = record s { external_workload_security_policies = ps } in
            rw (found, deleted) (unmap-Sound _ policy.metadata.name _ s' h)
      ]

  -- Whatever the event.
  pub handle_event-Sound :
      (random : ℕ → ℕ) (rounds : ℕ) (event : K8sKubeArmorExternalWorkloadPolicyEvent)
      (s : Operator E)
      → Sound s
      → Returns (λ _ t. Sound t) (handle_event d random rounds event s)
  unfolding handle_event
  handle_event-Sound random rounds event s h =
      let P = λ (_ : Unit {0}) (t : Operator E). Sound t in
      let policy = policy_of event in
      Returns-if P
        (not (event.object.status.status == "") && not (event.object.status.status == "OK")) _ _
        (λ _. h)
        (λ _.
          Returns-if P (event.type == "ADDED") _ _ (λ _. added-Sound random rounds policy s h)
            (λ _.
              Returns-if P (event.type == "MODIFIED") _ _
                (λ _. modified-Sound random rounds policy s h)
                (λ _.
                  Returns-if P (event.type == "DELETED") _ _
                    (λ _. deleted-Sound random rounds policy s h) (λ _. h))))
