-- ===== src/Service/Server/Departure.antt =====
-- What UpdateETCDLabelToIdentitiesMaps leaves in the store, and when it panics.
pub mod Leaving
pub mod Overwriting
pub mod ZeroIdentity
use mathlib.Core.Option.{get_or as value_or}
use kvm_service.Prelude.{
  ℕ, ◌-◌, ◌<◌, ◌^◌, String, List, [], ◌∷◌, Option, none, some, true, false, ◌≡◌, ◌≢◌, refl, sym,
  ◌∙◌, ap, GoMap, lookup, map-single, map-empty, take, length, get_or, contains, not, ◌&&◌, All,
  ◌<>◌, ◌==◌, nat_eq, string_eq, starts_with, starts_with_refl, starts_with-apart, apart, ==_refl,
  ==_of_ne, if◌then◌else◌, subst, Bool-cases, inl, inr,
}
use kvm_service.Constants.{
  kvm_svc_identiti_to_pod_ips, kvm_opr_identity_to_label, kvm_opr_label_to_identities,
}
use kvm_service.Go.Outcome.{Ensures, done, exit, panicked}
use kvm_service.Go.Strconv.{format_uint}
use kvm_service.Go.Slice.{swapped, remove_identity}
use kvm_service.Go.Slice.Removal.{remove_identity-found, contains-kept}
use kvm_service.Go.Json.{marshal_ids}
use kvm_service.Go.Json.RoundTrip.{unmarshal_ids-marshal_ids}
use kvm_service.Etcd.Driver.{Driver, IsLawful, IsHealthy}
use kvm_service.Etcd.Client.{response_map, raw_response}
use kvm_service.Etcd.Laws.{lookup_nil, lookup-etcd_get}
use kvm_service.Service.State.{Kvms}
use kvm_service.Service.Writes.{
  wrote, erased, put_or_fatal-done, try_delete-done, get_or_fatal-done, get_raw_or_fatal-done,
  pairs,
}
use kvm_service.Service.Server.{
  index_nil, for_response, remove_and_store, leave_label, update_etcd_label_to_identities_maps,
}
use kvm_service.Service.Server.Reads.{IsBare}

abbrev pub seat : ℕ → String
seat identity = kvm_svc_identiti_to_pod_ips <> format_uint identity

abbrev pub label_key : ℕ → String
label_key identity = kvm_opr_identity_to_label <> format_uint identity

abbrev pub list_key : String → String
list_key label = kvm_opr_label_to_identities <> label

index_nil-lookup :
    (m : Option (GoMap String String)) (key : String)
    → index_nil m key ≡ value_or (lookup_nil key m) ""
index_nil-lookup none key = refl
index_nil-lookup (some m) key = refl

module _ {E : Type 0} (d : Driver E) (healthy : IsHealthy d) (lawful : IsLawful d) where
  pub lookup-pairs :
      (p : String) (e : E) (k : String)
      → lookup k (pairs d healthy p e) ≡ (if starts_with k p then lawful.read e k else none)
  lookup-pairs p e k = lawful.get-read p e (pairs d healthy p e) k (healthy.get_ok p e).1

  -- The label that the store gives the identity.
  abbrev pub label_of : ℕ → E → String
  label_of identity e = value_or (lawful.read e (label_key identity)) ""

  -- A read of one key in the map that the store answers with.
  pub read_stored :
      (key : String) (s : Kvms E)
      → index_nil (response_map (pairs d healthy key s.etcd)) key
        ≡ value_or (lawful.read s.etcd key) ""
  read_stored key s =
      let read : lookup_nil key (response_map (pairs d healthy key s.etcd))
          ≡ lawful.read s.etcd key =
        lookup-etcd_get d lawful key s.etcd _ (healthy.get_ok key s.etcd).1 key
        ∙ (rw (starts_with_refl key) refl) in
      index_nil-lookup (response_map (pairs d healthy key s.etcd)) key
      ∙ ap (λ o. value_or o "") read

  pub leave_label-response :
      (identity : ℕ) (s : Kvms E) (kvs : GoMap String String)
      → pairs d healthy (list_key (label_of identity s.etcd)) s.etcd ≡ kvs
      → leave_label d identity s
        ≡ for_response (raw_response kvs) (remove_and_store d identity (label_of identity s.etcd)) s
  unfolding leave_label
  leave_label-response identity s kvs h = rw (get_or_fatal-done d healthy (label_key identity) s) (
      rw (read_stored (label_key identity) s)
        (rw (get_raw_or_fatal-done d healthy (list_key (label_of identity s.etcd)) s, h) refl))

  pub leave_label-panics :
      (identity : ℕ) (s : Kvms E)
      → IsBare (lawful.read s.etcd) (list_key (label_of identity s.etcd))
      → leave_label d identity s ≡ exit panicked s
  unfolding for_response raw_response
  leave_label-panics identity s bare = leave_label-response identity s [] (
      map-empty _ (λ j. lookup-pairs (list_key (label_of identity s.etcd)) s.etcd j ∙ none_under j))
    where
      none_under :
          (j : String)
          → (if starts_with j (list_key (label_of identity s.etcd))
              then lawful.read s.etcd j
              else none)
            ≡ none
      none_under j = elim (Bool-cases (starts_with j (list_key (label_of identity s.etcd)))) [
        | inl h ↦ rw (h, bare j h) refl
        | inr h ↦ rw h refl
      ]

  -- What the loop stores when the label has the one list.
  abbrev pub left_with : ℕ → String → List ℕ → ℕ → Kvms E → Kvms E
  left_with identity label arr p s =
      wrote d (list_key label) (marshal_ids (some (take (length arr - 1) (swapped arr p)))) none s

  remove_and_store-done :
      (identity : ℕ) (label : String) (arr : List ℕ) (p : ℕ) (s : Kvms E)
      → All (λ n. n < 2 ^ 16) arr
      → remove_identity identity arr ≡ some (record { array = swapped arr p; len = length arr - 1 })
      → remove_and_store d identity label (list_key label, marshal_ids (some arr)) s
        ≡ done tt (left_with identity label arr p s)
  unfolding remove_and_store
  remove_and_store-done identity label arr p s small removed =
      rw (unmarshal_ids-marshal_ids arr small, remove_and_store)
        (rw removed (
          put_or_fatal-done d healthy (list_key label)
            (marshal_ids (some (take (length arr - 1) (swapped arr p)))) s))

  pub leave_label-done :
      (identity : ℕ) (arr : List ℕ) (p : ℕ) (s : Kvms E)
      → All (λ n. n < 2 ^ 16) arr
      → remove_identity identity arr ≡ some (record { array = swapped arr p; len = length arr - 1 })
      → pairs d healthy (list_key (label_of identity s.etcd)) s.etcd
        ≡ (list_key (label_of identity s.etcd), marshal_ids (some arr)) ∷ []
      → leave_label d identity s ≡ done tt (left_with identity (label_of identity s.etcd) arr p s)
  unfolding for_response raw_response
  leave_label-done identity arr p s small removed single =
      leave_label-response identity s _ single
      ∙ (rw (remove_and_store-done identity (label_of identity s.etcd) arr p s small removed) refl)
