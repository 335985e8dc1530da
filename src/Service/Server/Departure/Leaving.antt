-- ===== src/Service/Server/Departure/Leaving.antt =====
-- What the departure of an agent (UpdateETCDLabelToIdentitiesMaps) leaves in the store as a whole.
use kvm_service.Prelude.{
  ℕ, ◌-◌, ◌<◌, ◌^◌, String, List, [], ◌∷◌, Option, none, some, true, false, ◌≡◌, ◌≢◌, refl, sym,
  ◌∙◌, map-single, take, length, get_or, contains, not, ◌&&◌, All, ◌==◌, nat_eq, string_eq,
  starts_with, starts_with_refl, starts_with-apart, apart, ==_refl, ==_of_ne, if◌then◌else◌, subst,
  Bool-cases, inl, inr,
}
use kvm_service.Constants.{
  kvm_svc_identiti_to_pod_ips, kvm_opr_identity_to_label, kvm_opr_label_to_identities,
}
use kvm_service.Go.Outcome.{Ensures, exit, panicked}
use kvm_service.Go.Strconv.{format_uint}
use kvm_service.Go.Slice.{swapped}
use kvm_service.Go.Slice.Removal.{remove_identity-found, contains-kept}
use kvm_service.Go.Json.{marshal_ids}
use kvm_service.Etcd.Driver.{Driver, IsLawful, IsHealthy}
use kvm_service.Service.State.{Kvms}
use kvm_service.Service.Writes.{erased, try_delete-done, pairs}
use kvm_service.Service.Server.{leave_label, update_etcd_label_to_identities_maps}
use kvm_service.Service.Server.Reads.{IsBare}
use kvm_service.Service.Server.Departure.{
  seat, label_key, list_key, lookup-pairs, label_of, left_with, leave_label-panics,
  leave_label-done,
}

-- The agent of the identity is gone: nothing is stored under a key that begins with that of its address,
-- so that the address of 50 goes with that of 5; the label's list holds the others and no more, and the
-- entries under keys that are neither are as before.
pub record HasLeft (before after : String → Option String) (identity : ℕ) (label : String)
    (arr : List ℕ) : Type 0 where
  pub gone : IsBare after (seat identity)
  pub rest : List ℕ
  pub stored : after (list_key label) ≡ some (marshal_ids (some rest))
  pub others : (n : ℕ) → contains rest n ≡ (contains arr n && not (n == identity))
  pub unchanged :
      (j : String) → starts_with j (seat identity) ≡ false → j ≢ list_key label → after j ≡ before j

module _ {E : Type 0} (d : Driver E) (healthy : IsHealthy d) (lawful : IsLawful d) (identity : ℕ)
    (label : String) (s : Kvms E) where
  abbrev pub unseated : Kvms E
  unseated = erased d (seat identity) s

  pub update-leave :
      update_etcd_label_to_identities_maps d identity s ≡ leave_label d identity unseated
  unfolding update_etcd_label_to_identities_maps
  update-leave = rw (try_delete-done d healthy (seat identity) s)

  pub read-unseated :
      (j : String)
      → lawful.read unseated.etcd j
        ≡ (if starts_with j (seat identity) then none else lawful.read s.etcd j)
  read-unseated j =
      lawful.delete-read (seat identity) s.etcd j (healthy.delete_ok (seat identity) s.etcd)

  pub read-list_key :
      (t : String) → lawful.read unseated.etcd (list_key t) ≡ lawful.read s.etcd (list_key t)
  unfolding apart
  read-list_key t =
      read-unseated (list_key t)
      ∙ (rw (
          starts_with-apart kvm_opr_label_to_identities kvm_svc_identiti_to_pod_ips t
            (format_uint identity) refl))

  pub label_of-unseated :
      lawful.read s.etcd (label_key identity) ≡ some label
      → label_of d healthy lawful identity unseated.etcd ≡ label
  unfolding apart
  label_of-unseated h = rw (read-unseated (label_key identity)) (
      rw
        (starts_with-apart kvm_opr_identity_to_label kvm_svc_identiti_to_pod_ips
          (format_uint identity) (format_uint identity) refl)
        (rw h refl))

  pub pairs-single :
      (arr : List ℕ)
      → lawful.read s.etcd (list_key label) ≡ some (marshal_ids (some arr))
      → ((j : String)
          → starts_with j (list_key label) ≡ true
          → j ≢ list_key label
          → lawful.read s.etcd j ≡ none)
      → pairs d healthy (list_key label) unseated.etcd
        ≡ (list_key label, marshal_ids (some arr)) ∷ []
  pairs-single arr listed alone =
      map-single (list_key label) (marshal_ids (some arr)) _
        (lawful.get-distinct (list_key label) unseated.etcd _
          (healthy.get_ok (list_key label) unseated.etcd).1)
        (lookup-pairs d healthy lawful (list_key label) unseated.etcd (list_key label)
          ∙ (rw (starts_with_refl (list_key label)) (read-list_key label ∙ listed)))
        (λ j other.
          lookup-pairs d healthy lawful (list_key label) unseated.etcd j ∙ none_else j other)
    where
      none_else :
          (j : String)
          → j ≢ list_key label
          → (if starts_with j (list_key label) then lawful.read unseated.etcd j else none) ≡ none
      none_else j other = elim (Bool-cases (starts_with j (list_key label))) [
        | inr h ↦ rw h refl
        | inl h ↦ rw h (
            read-unseated j ∙ (elim (Bool-cases (starts_with j (seat identity))) [
              | inl t ↦ rw t refl
              | inr t ↦ rw t (alone j h other)
            ]))
      ]

  left-HasLeft :
      (arr : List ℕ) (p : ℕ)
      → identity ≢ 0
      → p < length arr
      → get_or arr p 0 ≡ identity
      → ((k : ℕ) → k < length arr → k ≢ p → get_or arr k 0 ≢ identity)
      → HasLeft
          (lawful.read s.etcd)
          (lawful.read (left_with d healthy lawful identity label arr p unseated).etcd)
          identity
          label
          arr
  unfolding apart
  left-HasLeft arr p nonzero inside found once = record {
    gone = λ j h.
        written j
        ∙ (rw (==_of_ne (list_key label) j (λ e. not_seat j h e)) (read-unseated j ∙ (rw h refl)));
    rest = take (length arr - 1) (swapped arr p);
    stored = written (list_key label) ∙ (rw (==_refl (list_key label)) refl);
    others = contains-kept identity arr p nonzero inside found once;
    unchanged = λ j h other.
        written j
        ∙ (rw (==_of_ne (list_key label) j (λ e. other (sym e))) (read-unseated j ∙ (rw h refl)));
  }
    where
      written :
          (j : String)
          → lawful.read (left_with d healthy lawful identity label arr p unseated).etcd j ≡ (
              if list_key label == j
              then some (marshal_ids (some (take (length arr - 1) (swapped arr p))))
              else lawful.read unseated.etcd j)
      written j =
          lawful.put-read (list_key label) _ none unseated.etcd j
            (healthy.put_ok (list_key label) _ none unseated.etcd)

      not_seat : (j : String) → starts_with j (seat identity) ≡ true → list_key label ≢ j
      not_seat j h e =
          let q : starts_with j (seat identity) ≡ false =
            subst (λ k. starts_with k (seat identity) ≡ false) e
              (starts_with-apart kvm_opr_label_to_identities kvm_svc_identiti_to_pod_ips label
                (format_uint identity) refl) in
          cc

-- On a healthy store that keeps etcd's promises, where the identity is not 0, the stored list of
-- its label names it once and no other key begins with that list's key, the departure of an agent
-- returns: every address whose key begins with the key of the agent's own is deleted, those of
-- other agents included, the stored list holds the other identities and no more, and each entry
-- under a key that is neither is as before.
pub update_etcd_label_to_identities_maps-HasLeft :
    {E : Type 0} (d : Driver E) (healthy : IsHealthy d) (lawful : IsLawful d) (identity : ℕ)
    (label : String) (s : Kvms E) (arr : List ℕ) (p : ℕ)
    → lawful.read s.etcd (label_key identity) ≡ some label
    → lawful.read s.etcd (list_key label) ≡ some (marshal_ids (some arr))
    → ((j : String)
        → starts_with j (list_key label) ≡ true
        → j ≢ list_key label
        → lawful.read s.etcd j ≡ none)
    → All (λ n. n < 2 ^ 16) arr
    → identity ≢ 0
    → p < length arr
    → get_or arr p 0 ≡ identity
    → ((k : ℕ) → k < length arr → k ≢ p → get_or arr k 0 ≢ identity)
    → Ensures
        (λ _ s'. HasLeft (lawful.read s.etcd) (lawful.read s'.etcd) identity label arr)
        (update_etcd_label_to_identities_maps d identity s)
update_etcd_label_to_identities_maps-HasLeft d healthy lawful identity label s arr p labelled listed
      alone small nonzero inside found once =
    let same = label_of-unseated d healthy lawful identity label s labelled in
    let run =
      leave_label-done d healthy lawful identity arr p (unseated d healthy lawful identity label s)
        small (remove_identity-found identity arr p nonzero inside found once)
        (rw same (pairs-single d healthy lawful identity label s arr listed alone)) in
    rw (update-leave d healthy lawful identity label s, run, same)
      (left-HasLeft d healthy lawful identity label s arr p nonzero inside found once)

-- On a healthy store that keeps etcd's promises, and where nothing is stored under the list key of
-- the identity's stored label, the departure of the agent panics after the agent's address was
-- deleted.
pub update_etcd_label_to_identities_maps-panics :
    {E : Type 0} (d : Driver E) (healthy : IsHealthy d) (lawful : IsLawful d) (identity : ℕ)
    (label : String) (s : Kvms E)
    → lawful.read s.etcd (label_key identity) ≡ some label
    → IsBare (lawful.read s.etcd) (list_key label)
    → (after : Kvms E) × (update_etcd_label_to_identities_maps d identity s ≡ exit panicked after)
      × IsBare (lawful.read after.etcd) (seat identity)
update_etcd_label_to_identities_maps-panics d healthy lawful identity label s labelled bare = (
  unseated d healthy lawful identity label s,
  update-leave d healthy lawful identity label s
      ∙ leave_label-panics d healthy lawful identity _ (
          rw (label_of-unseated d healthy lawful identity label s labelled)
            (λ j h. read-unseated d healthy lawful identity label s j ∙ none_still j h)),
  λ j h. read-unseated d healthy lawful identity label s j ∙ (rw h refl),
)
  where
    none_still :
        (j : String)
        → starts_with j (list_key label) ≡ true
        → (if starts_with j (seat identity) then none else lawful.read s.etcd j) ≡ none
    none_still j h = elim (Bool-cases (starts_with j (seat identity))) [
      | inl t ↦ rw t refl
      | inr t ↦ rw t (bare j h)
    ]
