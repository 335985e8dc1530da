-- ===== src/Service/Server/Departure/ZeroIdentity.antt =====
-- The departure of an agent (UpdateETCDLabelToIdentitiesMaps) whose identity is 0.
use kvm_service.Prelude.{
  ℕ, ◌+◌, ◌<◌, ◌^◌, String, List, [], ◌∷◌, none, some, true, ◌≡◌, ◌≢◌, refl, ◌∙◌, length, get_or,
  All, string_eq, starts_with,
}
use kvm_service.Go.Outcome.{exit, panicked}
use kvm_service.Go.Slice.Zero.{remove_identity-zero}
use kvm_service.Go.Json.{marshal_ids}
use kvm_service.Go.Json.RoundTrip.{unmarshal_ids-marshal_ids}
use kvm_service.Etcd.Driver.{Driver, IsLawful, IsHealthy}
use kvm_service.Etcd.Client.{raw_response}
use kvm_service.Service.State.{Kvms}
use kvm_service.Service.Server.{
  for_response, remove_and_store, update_etcd_label_to_identities_maps,
}
use kvm_service.Service.Server.Reads.{IsBare}
use kvm_service.Service.Server.Departure.{seat, label_key, list_key, leave_label-response}
use kvm_service.Service.Server.Departure.Leaving.{
  unseated, read-unseated, update-leave, label_of-unseated, pairs-single, read-list_key,
}

remove_and_store-zero :
    {E : Type 0} (d : Driver E) (label key : String) (arr : List ℕ) (p : ℕ) (s : Kvms E)
    → All (λ n. n < 2 ^ 16) arr
    → p + 1 < length arr
    → get_or arr p 0 ≡ 0
    → remove_and_store d 0 label (key, marshal_ids (some arr)) s ≡ exit panicked s
unfolding remove_and_store
remove_and_store-zero d label key arr p s small before found =
    rw (unmarshal_ids-marshal_ids arr small, remove_and_store)
      (rw (remove_identity-zero arr p before found) refl)

-- On a healthy store that keeps etcd's promises, where the stored list of identity 0's label has
-- numbers of 16 bits and names 0 before the last place, and no other key begins with that list's
-- key, the departure of the agent with identity 0 panics, after its address was deleted and with
-- the list as before.
pub update_etcd_label_to_identities_maps-zero :
    {E : Type 0} (d : Driver E) (healthy : IsHealthy d) (lawful : IsLawful d) (label : String)
    (s : Kvms E) (arr : List ℕ) (p : ℕ)
    → lawful.read s.etcd (label_key 0) ≡ some label
    → lawful.read s.etcd (list_key label) ≡ some (marshal_ids (some arr))
    → ((j : String)
        → starts_with j (list_key label) ≡ true
        → j ≢ list_key label
        → lawful.read s.etcd j ≡ none)
    → All (λ n. n < 2 ^ 16) arr
    → p + 1 < length arr
    → get_or arr p 0 ≡ 0
    → (after : Kvms E) × (update_etcd_label_to_identities_maps d 0 s ≡ exit panicked after)
      × IsBare (lawful.read after.etcd) (seat 0)
      × (lawful.read after.etcd (list_key label) ≡ some (marshal_ids (some arr)))
unfolding for_response raw_response
update_etcd_label_to_identities_maps-zero d healthy lawful label s arr p labelled listed alone small
      before found =
    let t = unseated d healthy lawful 0 label s in
    let same = label_of-unseated d healthy lawful 0 label s labelled in
    (
      t,
      rw
          (
            update-leave d healthy lawful 0 label s,
            leave_label-response d healthy lawful 0 t
                ((list_key label, marshal_ids (some arr)) ∷ [])
                (rw same (pairs-single d healthy lawful 0 label s arr listed alone)),
            same,
          )
          (rw (remove_and_store-zero d label (list_key label) arr p t small before found) refl),
      (λ j h. read-unseated d healthy lawful 0 label s j ∙ (rw h refl)),
      read-list_key d healthy lawful 0 label s label ∙ listed,
    )
