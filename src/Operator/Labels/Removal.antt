-- ===== src/Operator/Labels/Removal.antt =====
-- What UnMapLabelIdentity leaves behind, in memory and in a healthy store.
use mathlib.Core.Option.{get_or as value_or}
use kvm_service.Prelude.{
  ℕ, ◌-◌, ◌<◌, String, List, [], Option, none, some, true, false, ◌≡◌, ◌≢◌, refl, ◌∙◌, ap, lookup,
  lookup-insert, lookup-delete, ◌<>◌, ◌==◌, nat_eq, string_eq, contains, length, get_or,
  starts_with, ==_refl, ==-apart, starts_with-apart, starts_with-<>, apart, if◌then◌else◌,
}
use kvm_service.Constants.{
  kvm_opr_identity_to_ewname, kvm_opr_ewname_to_identity, kvm_opr_identity_to_label,
  kvm_opr_label_to_identities,
}
use kvm_service.Go.Outcome.{done, Ensures}
use kvm_service.Go.Strconv.{format_uint}
use kvm_service.Go.Slice.{swapped, remove_identity}
use kvm_service.Go.Slice.Removal.{
  remove_identity-found, contains-swapped_zero, contains-swapped_self, length-swapped,
}
use kvm_service.Go.Json.{marshal_ids}
use kvm_service.Etcd.Driver.{Driver, IsLawful, IsHealthy}
use kvm_service.Operator.State.{Operator}
use kvm_service.Operator.Writes.{
  wrote, erased, put_or_fatal-done, delete_or_fatal-done, read-put, read-delete,
}
use kvm_service.Operator.Labels.{
  write_through, forget, keep_array, remove_from_label, publish_label, unmap_label_identity,
}
use kvm_service.Operator.Labels.Published.{IsPublished}

module _ {E : Type 0} (read : E → String → Option String) where
  -- The identity and the name are gone from the maps, and the label's slice has the array that the
  -- removal loop left: without the identity, and with a 0 that it did not name before.
  pub record IsUnmapped (s : Operator E) (identity : ℕ) (ew_name label : String) (array : List ℕ)
      (s' : Operator E) : Type 0 where
    pub names :
        (i : ℕ)
        → lookup i s'.map_identity_to_ewname
          ≡ (if identity == i then none else lookup i s.map_identity_to_ewname)
    pub identities :
        (n : String)
        → lookup n s'.map_ewname_to_identity
          ≡ (if ew_name == n then none else lookup n s.map_ewname_to_identity)
    pub labels :
        (i : ℕ)
        → lookup i s'.map_identity_to_label
          ≡ (if identity == i then none else lookup i s.map_identity_to_label)
    pub slice : lookup label s'.map_label_to_identities ≡ some array
    pub published : IsPublished read label s'
    -- every stored label of an identity whose digits begin with the identity's digits is deleted
    pub stored_labels :
        (i : ℕ)
        → read s'.etcd (kvm_opr_identity_to_label <> format_uint i) ≡ (
            if starts_with (format_uint i) (format_uint identity)
            then none
            else read s.etcd (kvm_opr_identity_to_label <> format_uint i))

module _ {E : Type 0} (d : Driver E) where
  -- The operator after the three deletes of UnMapLabelIdentity.
  abbrev pub cleared : ℕ → String → Operator E → Operator E
  cleared identity ew_name s = erased d (kvm_opr_identity_to_label <> format_uint identity) (
      erased d (kvm_opr_ewname_to_identity <> ew_name)
        (erased d (kvm_opr_identity_to_ewname <> format_uint identity) (forget identity ew_name s)))

module _ {E : Type 0} (d : Driver E) (healthy : IsHealthy d) (lawful : IsLawful d) (identity : ℕ)
    (ew_name label : String) (s : Operator E) (array : List ℕ) (size : ℕ) where
  abbrev pub rewritten : Operator E
  rewritten =
      let left = cleared d identity ew_name s in
      record left {
        map_label_to_identities = write_through label array left.map_label_to_identities;
      }

  abbrev pub unmapped : Operator E
  unmapped =
      wrote d (kvm_opr_label_to_identities <> label)
        (marshal_ids (lookup label rewritten.map_label_to_identities)) rewritten

  pub unmap_label_identity-done :
      remove_identity identity (value_or (lookup label s.map_label_to_identities) [])
        ≡ some (record { array = array; len = size })
      → unmap_label_identity d identity ew_name label s ≡ done tt unmapped
  unfolding unmap_label_identity remove_from_label forget publish_label keep_array
  unmap_label_identity-done h =
      rw (delete_or_fatal-done d healthy (kvm_opr_identity_to_ewname <> format_uint identity) _) (
        rw (delete_or_fatal-done d healthy (kvm_opr_ewname_to_identity <> ew_name) _) (
          rw (delete_or_fatal-done d healthy (kvm_opr_identity_to_label <> format_uint identity) _)
            (rw h (put_or_fatal-done d healthy (kvm_opr_label_to_identities <> label) _ _))))

  -- No other write of the method touches the stored labels.
  read-unmapped :
      (i : ℕ)
      → lawful.read unmapped.etcd (kvm_opr_identity_to_label <> format_uint i) ≡ (
          if starts_with (format_uint i) (format_uint identity)
          then none
          else lawful.read s.etcd (kvm_opr_identity_to_label <> format_uint i))
  unfolding apart forget
  read-unmapped i =
      let key = kvm_opr_identity_to_label <> format_uint i in
      read-put d healthy lawful (kvm_opr_label_to_identities <> label) _ _ key
      ∙ (rw
          (==-apart kvm_opr_label_to_identities kvm_opr_identity_to_label label (format_uint i)
            refl)
          (read-delete d healthy lawful (kvm_opr_identity_to_label <> format_uint identity) _ key
            ∙ (rw (starts_with-<> kvm_opr_identity_to_label (format_uint i) (format_uint identity))
                (ap (λ o. if starts_with (format_uint i) (format_uint identity) then none else o)
                  (read-delete d healthy lawful (kvm_opr_ewname_to_identity <> ew_name) _ key
                    ∙ (rw
                        (starts_with-apart kvm_opr_identity_to_label kvm_opr_ewname_to_identity
                          (format_uint i) ew_name refl)
                        (read-delete d healthy lawful
                            (kvm_opr_identity_to_ewname <> format_uint identity) _ key
                          ∙ (rw (
                              starts_with-apart kvm_opr_identity_to_label kvm_opr_identity_to_ewname
                                (format_uint i) (format_uint identity) refl)))))))))

  unmapped-IsUnmapped :
      (old : List ℕ)
      → lookup label s.map_label_to_identities ≡ some old
      → IsUnmapped lawful.read s identity ew_name label array unmapped
  unfolding forget write_through
  unmapped-IsUnmapped old held = record {
    names = λ i. lookup-delete identity i s.map_identity_to_ewname;
    identities = λ n. lookup-delete ew_name n s.map_ewname_to_identity;
    labels = λ i. lookup-delete identity i s.map_identity_to_label;
    slice = rw (held, write_through) (lookup-insert label label array _ ∙ (rw (==_refl label)));
    published =
        read-put d healthy lawful (kvm_opr_label_to_identities <> label) _ _
          (kvm_opr_label_to_identities <> label)
        ∙ (rw (==_refl (kvm_opr_label_to_identities <> label)));
    stored_labels = read-unmapped;
  }

-- On a healthy store that keeps etcd's promises, and where the label lists a nonzero identity once,
-- UnMapLabelIdentity returns: the identity and the name are gone from the maps, every stored label
-- of an identity whose digits begin with the identity's is deleted, and the label's list, in memory
-- and as published, has its old length, without the identity and with a 0.
pub unmap_label_identity-IsUnmapped :
    {E : Type 0} (d : Driver E) (healthy : IsHealthy d) (lawful : IsLawful d) (identity : ℕ)
    (ew_name label : String) (s : Operator E) (arr : List ℕ) (p : ℕ)
    → lookup label s.map_label_to_identities ≡ some arr
    → identity ≢ 0
    → p < length arr
    → get_or arr p 0 ≡ identity
    → ((k : ℕ) → k < length arr → k ≢ p → get_or arr k 0 ≢ identity)
    → Ensures
        (λ _ s'.
          IsUnmapped lawful.read s identity ew_name label (swapped arr p) s'
          × (length (swapped arr p) ≡ length arr)
          × (contains (swapped arr p) identity ≡ false)
          × (contains (swapped arr p) 0 ≡ true))
        (unmap_label_identity d identity ew_name label s)
unmap_label_identity-IsUnmapped d healthy lawful identity ew_name label s arr p held nonzero inside
      found once =
    rw
      (unmap_label_identity-done d healthy lawful identity ew_name label s (swapped arr p)
        (length arr - 1) (rw held (remove_identity-found identity arr p nonzero inside found once)))
      (
        unmapped-IsUnmapped d healthy lawful identity ew_name label s (swapped arr p)
            (length arr - 1) arr held,
        length-swapped identity arr p nonzero inside found once,
        contains-swapped_self identity arr p nonzero inside found once,
        contains-swapped_zero identity arr p nonzero inside found once,
      )
