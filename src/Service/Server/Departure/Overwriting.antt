-- ===== src/Service/Server/Departure/Overwriting.antt =====
-- What the departure of an agent (UpdateETCDLabelToIdentitiesMaps) leaves under its label when other
-- labels begin with this one: the read is by prefix, and every answer is written to the one key.
use mathlib.Core.Option.{get_or as value_or}
use kvm_service.Prelude.{
  String, ℕ, List, [], ◌∷◌, ◌++◌, some, none, ◌≡◌, refl, sym, ◌∙◌, ap, GoMap, take, All, ==_refl,
  string_eq,
}
use kvm_service.Go.Outcome.{Ensures, ok, err, for_each}
use kvm_service.Go.Outcome.Rules.{
  Ensures-continue, Ensures-for_each, Ensures-weaken, for_each-append,
}
use kvm_service.Go.Slice.{Window, remove_identity}
use kvm_service.Go.Json.{marshal_ids, unmarshal_ids}
use kvm_service.Etcd.Driver.{Driver, IsLawful, IsHealthy}
use kvm_service.Etcd.Client.{raw_response}
use kvm_service.Service.State.{Kvms}
use kvm_service.Service.Writes.{put_or_fatal-done, pairs}
use kvm_service.Service.Server.{
  for_response, remove_and_store, update_etcd_label_to_identities_maps,
}
use kvm_service.Service.Server.Departure.{seat, label_key, list_key, leave_label-response}
use kvm_service.Service.Server.Departure.Leaving.{unseated, update-leave, label_of-unseated}

-- The list can be read, and the identity removed from it within its bounds.
pub record IsRemovable (identity : ℕ) (value : String) : Type 0 where
  pub list : List ℕ
  pub parsed : unmarshal_ids value ≡ some (some list)
  pub window : Window
  pub removed : remove_identity identity list ≡ some window

-- What is stored for the list.
abbrev pub text_of : (identity : ℕ) (value : String) → IsRemovable identity value → String
text_of identity value r = marshal_ids (some (take r.window.len r.window.array))

-- A response with a last pair is no nil.
raw_response-last :
    (kvs : GoMap String String) (last : String × String)
    → raw_response (kvs ++ last ∷ []) ≡ some (kvs ++ last ∷ [])
unfolding raw_response
raw_response-last [] last = refl
raw_response-last (kv ∷ kvs) last = refl

module _ {E : Type 0} (d : Driver E) (healthy : IsHealthy d) (lawful : IsLawful d) (identity : ℕ)
    (label : String) where
  remove_and_store-text :
      (key value : String) (s : Kvms E)
      → (r : IsRemovable identity value)
      → Ensures
          (λ _ t. lawful.read t.etcd (list_key label) ≡ some (text_of identity value r))
          (remove_and_store d identity label (key, value) s)
  unfolding remove_and_store
  remove_and_store-text key value s r =
      rw (r.parsed, remove_and_store)
        (rw r.removed (
          rw (put_or_fatal-done d healthy (list_key label) (text_of identity value r) s) (
            lawful.put-read (list_key label) (text_of identity value r) none s.etcd (list_key label)
              (healthy.put_ok (list_key label) (text_of identity value r) none s.etcd)
            ∙ (rw (==_refl (list_key label))))))

  loop-text :
      (kvs : GoMap String String) (key value : String) (s : Kvms E)
      → All (λ y. IsRemovable identity y.1) kvs
      → (r : IsRemovable identity value)
      → Ensures
          (λ _ t. lawful.read t.etcd (list_key label) ≡ some (text_of identity value r))
          (for_each (kvs ++ (key, value) ∷ []) (remove_and_store d identity label) s)
  loop-text kvs key value s all r =
      rw (for_each-append kvs ((key, value) ∷ []) (remove_and_store d identity label) s) (
        Ensures-continue (λ _ _. Unit {0}) _ (for_each kvs (remove_and_store d identity label) s) _
          (Ensures-for_each (λ _. Unit {0}) (λ y. IsRemovable identity y.1) kvs
            (remove_and_store d identity label) s
            (λ y t q u.
              Ensures-weaken _ _ (remove_and_store d identity label y t)
                (remove_and_store-text y.0 y.1 t q) (λ _ _ _. tt))
            all tt)
          (λ _ t u.
            Ensures-continue _ _ (remove_and_store d identity label (key, value) t) _
              (remove_and_store-text key value t r) (λ _ _ stored. stored)))

-- On a healthy store that keeps etcd's promises, where the identity has a stored label and each
-- list that etcd answers for the label's key as a prefix can be read and the identity removed from
-- it within its bounds, the departure of an agent returns with the last of these lists, without the
-- identity, stored under the label itself, whichever label it belongs to.
pub update_etcd_label_to_identities_maps-overwrites :
    {E : Type 0} (d : Driver E) (healthy : IsHealthy d) (lawful : IsLawful d) (identity : ℕ)
    (label : String) (s : Kvms E) (kvs : GoMap String String) (key value : String)
    → lawful.read s.etcd (label_key identity) ≡ some label
    → d.get (list_key label) (d.delete (seat identity) s.etcd).1 ≡ ok (kvs ++ (key, value) ∷ [])
    → All (λ y. IsRemovable identity y.1) kvs
    → (r : IsRemovable identity value)
    → Ensures
        (λ _ t. lawful.read t.etcd (list_key label) ≡ some (text_of identity value r))
        (update_etcd_label_to_identities_maps d identity s)
unfolding for_response
update_etcd_label_to_identities_maps-overwrites d healthy lawful identity label s kvs key value
      labelled answer all r =
    let t = unseated d healthy lawful identity label s in
    let same = label_of-unseated d healthy lawful identity label s labelled in
    let response : pairs d healthy (list_key label) t.etcd ≡ kvs ++ (key, value) ∷ [] =
      ap (λ o. value_or (elim o [ err m ↦ none | ok kvs ↦ some kvs ]) [])
        (sym (healthy.get_ok (list_key label) t.etcd).1 ∙ answer) in
    rw
      (
        update-leave d healthy lawful identity label s,
        leave_label-response d healthy lawful identity t (kvs ++ (key, value) ∷ [])
            (rw same response),
        same,
      )
      (rw (raw_response-last kvs (key, value), for_response)
        (loop-text d healthy lawful identity label kvs key value t all r))
