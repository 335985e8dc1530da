-- ===== src/System/Serve.antt =====
-- The calls of the service keep the lists of identities in the store readable
-- (src/service/server/kvmserver.go, src/service/core/kvmsUpdate.go).
use mathlib.Core.Option.{get_or as value_or}
use kvm_service.Prelude.{
  ℕ, ◌<◌, ◌^◌, String, List, [], Option, none, some, ◌≡◌, refl, subst, ◌∙◌, apart, ◌<>◌, ◌==◌,
  string_eq, All, All-map, take, starts_with-first, Option-cases, Bool-cases, inl, inr, arith,
}
use kvm_service.Constants.{
  kvm_svc_identiti_to_pod_ips, kvm_opr_label_to_identities, kvm_opr_ewname_to_identity,
}
use kvm_service.Go.Outcome.{Returns}
use kvm_service.Go.Slice.{remove_identity}
use kvm_service.Go.Slice.Kept.{remove_identity-All, All-take}
use kvm_service.Go.Json.{marshal_ids}
use kvm_service.Etcd.Driver.{Driver, IsLawful, IsHealthy}
use kvm_service.Service.State.{Kvms, put_or_fatal}
use kvm_service.Service.Writes.{put_or_fatal-done, get_or_fatal-done, pairs}
use kvm_service.Service.Server.{
  remove_and_store, register_agent_identity, update_etcd_label_to_identities_maps,
  handle_cli_request, reply_for, answer,
}
use kvm_service.Service.Server.Registration.{register_agent_identity-decides}
use kvm_service.Service.Server.Departure.{list_key, label_of, leave_label-response}
use kvm_service.Service.Server.Departure.Leaving.{unseated, update-leave}
use kvm_service.Service.Core.Unwritten.{for_response-keeps}
use kvm_service.Service.Core.Progress.{pairs-stored}
use kvm_service.Operator.Labels.Frame.{AllLists, other_key}
use kvm_service.System.Lists.{Small, IsList, AllLists-AreLists, Listed, put-Listed, delete-Listed}

module _ {E : Type 0} (d : Driver E) (healthy : IsHealthy d) (lawful : IsLawful d) where
  abbrev pub Readable : Kvms E → Type 0
  Readable s = Listed d healthy lawful s.etcd

  pub register_agent_identity-Readable :
      (identity : String) (s : Kvms E)
      → Readable s
      → Returns (λ _ t. Readable t) (register_agent_identity d identity s)
  unfolding apart
  register_agent_identity-Readable identity s lists =
      elim (register_agent_identity-decides d healthy lawful identity s) [
        | inr (never, run) ↦ rw run lists
        | inl (may, a) ↦
            let same : AllLists (lawful.read s.etcd) (lawful.read a.after.etcd) = λ j under.
              a.contents j
              ∙ (rw (other_key kvm_svc_identiti_to_pod_ips identity j refl under) refl) in
            rw a.run (AllLists-AreLists _ _ same lists)
      ]

  stored-Readable :
      (label : String) (ids : Option (List ℕ)) (s : Kvms E)
      → Small (value_or ids [])
      → Readable s
      → Returns (λ _ t. Readable t) (put_or_fatal d (list_key label) (marshal_ids ids) s)
  stored-Readable label ids s small lists =
      rw (put_or_fatal-done d healthy (list_key label) (marshal_ids ids) s)
        (put-Listed d healthy lawful label ids none s.etcd small lists)

  remove_and_store-Readable :
      (identity : ℕ) (label key value : String) (s : Kvms E)
      → IsList value
      → Readable s
      → Returns (λ _ t. Readable t) (remove_and_store d identity label (key, value) s)
  unfolding remove_and_store
  remove_and_store-Readable identity label key value s l lists = elim (Option-cases l.ids) [
    | inl nil ↦ rw (l.parsed, nil, remove_and_store) (stored-Readable label none s tt lists)
    | inr (arr, e) ↦
        let small : Small arr = subst (λ o. Small (value_or o [])) e l.small in
        elim (Option-cases (remove_identity identity arr)) [
          | inl outside ↦ rw (l.parsed, e, outside, remove_and_store) tt
          | inr (w, removed) ↦
              rw (l.parsed, e, removed, remove_and_store)
                (stored-Readable label (some (take w.len w.array)) s
                  (All-take (λ n. n < 2 ^ 16) (omega arith) w.len w.array
                    (remove_identity-All (λ n. n < 2 ^ 16) (omega arith) identity arr w small
                      removed))
                  lists)
        ]
  ]

  -- What an answer for a label's key holds.
  answered-IsList :
      (label : String) (s : Kvms E)
      → Readable s
      → All (λ y. IsList y.1) (pairs d healthy (list_key label) s.etcd)
  answered-IsList label s lists =
      All-map _ _
        (λ y (under, stored).
          lists y.0 y.1 (starts_with-first kvm_opr_label_to_identities label y.0 under) stored)
        _ (pairs-stored d healthy lawful (list_key label) s.etcd)

  pub update_etcd_label_to_identities_maps-Readable :
      (identity : ℕ) (s : Kvms E)
      → Readable s
      → Returns (λ _ t. Readable t) (update_etcd_label_to_identities_maps d identity s)
  update_etcd_label_to_identities_maps-Readable identity s lists =
      let t = unseated d healthy lawful identity "" s in
      let label = label_of d healthy lawful identity t.etcd in
      let left : Readable t = delete-Listed d healthy lawful _ s.etcd lists in
      rw
        (
          update-leave d healthy lawful identity "" s,
          leave_label-response d healthy lawful identity t (pairs d healthy (list_key label) t.etcd)
              refl,
        )
        (for_response-keeps Readable (λ y. IsList y.1) _ (remove_and_store d identity label) t
          (λ y u l r. remove_and_store-Readable identity label y.0 y.1 u l r)
          (answered-IsList label t left) left)

module _ {E : Type 0} (d : Driver E) (healthy : IsHealthy d) where
  reply_for-etcd :
      (kvm_name identity : String) (s : Kvms E)
      → Returns (λ _ t. t.etcd ≡ s.etcd) (reply_for d kvm_name identity s)
  unfolding reply_for answer
  reply_for-etcd kvm_name identity s = elim (Bool-cases (identity == "")) [
    | inl h ↦ rw (h, reply_for) refl
    | inr h ↦ rw (h, reply_for) refl
  ]

  -- A request of the command line writes nothing to the store.
  pub handle_cli_request-etcd :
      (kvm_name : String) (s : Kvms E)
      → Returns (λ _ t. t.etcd ≡ s.etcd) (handle_cli_request d kvm_name s)
  unfolding handle_cli_request
  handle_cli_request-etcd kvm_name s =
      rw (get_or_fatal-done d healthy (kvm_opr_ewname_to_identity <> kvm_name) s)
        (reply_for-etcd kvm_name _ s)
