-- ===== src/Operator/Labels/Published.antt =====
-- What UpdateIdentityLabelsMap publishes for the service to read.
use mathlib.Core.Option.{get_or as value_or}
use text.Mathlib.TextLemmas.{append_cancel_left}
use kvm_service.Prelude.{
  or_false, ℕ, ◌+◌, String, List, [], ◌∷◌, ◌++◌, Option, some, true, false, ◌||◌, ◌≡◌, ◌≢◌, inl,
  inr, refl, sym, ap, if◌then◌else◌, ◌∙◌, lookup, insert, lookup-insert, ◌<>◌, ◌==◌, nat_eq,
  string_eq, contains, contains-append, contains-singleton, Bool-cases, ==_of_ne, ==_cases, ==_refl,
  ==-apart, apart, arith,
}
use kvm_service.Constants.{kvm_opr_identity_to_label, kvm_opr_label_to_identities}
use kvm_service.Go.Outcome.{done, Ensures}
use kvm_service.Go.Strconv.{format_uint}
use kvm_service.Go.Json.{marshal_ids}
use kvm_service.Etcd.Driver.{Driver, IsLawful, IsHealthy}
use kvm_service.Operator.State.{Operator}
use kvm_service.Operator.Writes.{wrote, put_or_fatal-done, read-put}
use kvm_service.Operator.Labels.{find, find_from, add_to_label, update_identity_labels_map}

-- Find tells whether the identity is in the slice.
find_from-contains :
    (i : ℕ) (ids : List ℕ) (identity : ℕ) → (find_from i ids identity).1 ≡ contains ids identity
unfolding find_from contains
find_from-contains i [] identity = refl
find_from-contains i (x ∷ ids) identity = ground (arith, find_from-contains (i + 1) ids identity)

pub find-contains : (ids : List ℕ) (identity : ℕ) → (find ids identity).1 ≡ contains ids identity
unfolding find
find-contains ids identity = find_from-contains 0 ids identity

abbrev pub identities_of : {E : Type 0} → String → Operator E → List ℕ
identities_of label s = value_or (lookup label s.map_label_to_identities) []

already_listed :
    (ids : List ℕ) (identity i : ℕ)
    → contains ids identity ≡ true
    → contains ids i ≡ (contains ids i || identity == i)
already_listed ids identity i h = elim (==_cases identity i) [
  | inl same ↦ rw (← same, h)
  | inr other ↦ rw (==_of_ne identity i other) (sym (or_false (contains ids i)))
]

module _ {E : Type 0} (read : E → String → Option String) where
  -- Memory and store agree on a label: the store holds the JSON text of the label's identities.
  abbrev pub IsPublished : String → Operator E → Type 0
  IsPublished label s =
      read s.etcd (kvm_opr_label_to_identities <> label)
      ≡ some (marshal_ids (lookup label s.map_label_to_identities))

  -- The identity's label is recorded, and the label lists the identity beside those it had.
  pub record IsLabelled (s : Operator E) (identity : ℕ) (label : String) (s' : Operator E)
      : Type 0 where
    pub label_held : lookup identity s'.map_identity_to_label ≡ some label
    pub label_stored : read s'.etcd (kvm_opr_identity_to_label <> format_uint identity) ≡ some label
    pub listed :
        (i : ℕ)
        → contains (identities_of label s') i
          ≡ (contains (identities_of label s) i || identity == i)
    pub others :
        (l : String)
        → l ≢ label
        → lookup l s'.map_label_to_identities ≡ lookup l s.map_label_to_identities
    pub others_stored :
        (l : String)
        → l ≢ label
        → read s'.etcd (kvm_opr_label_to_identities <> l)
          ≡ read s.etcd (kvm_opr_label_to_identities <> l)
    -- an identity that was listed leaves the label's list as it was, in memory and in the store;
    -- another one is put behind it, and the list is published
    pub slice : lookup label s'.map_label_to_identities ≡ (
        if contains (identities_of label s) identity
        then lookup label s.map_label_to_identities
        else some (identities_of label s ++ identity ∷ []))
    pub stored : read s'.etcd (kvm_opr_label_to_identities <> label) ≡ (
        if contains (identities_of label s) identity
        then read s.etcd (kvm_opr_label_to_identities <> label)
        else some (marshal_ids (some (identities_of label s ++ identity ∷ []))))

  -- So the list is published, if it was or if the identity is new to it.
  pub IsLabelled-IsPublished :
      (s : Operator E) (identity : ℕ) (label : String) (s' : Operator E)
      → IsLabelled s identity label s'
      → (contains (identities_of label s) identity ≡ true → IsPublished label s)
      → IsPublished label s'
  IsLabelled-IsPublished s identity label s' l before =
      elim (Bool-cases (contains (identities_of label s) identity)) [
        | inl old ↦
            l.stored
            ∙ (rw old (before old ∙ ap (λ o. some (marshal_ids o)) (sym (l.slice ∙ (rw old refl)))))
        | inr new ↦
            l.stored ∙ (rw new (ap (λ o. some (marshal_ids o)) (sym (l.slice ∙ (rw new refl)))))
      ]

module _ {E : Type 0} (d : Driver E) (healthy : IsHealthy d) (lawful : IsLawful d) where
  abbrev label_key : String → String
  label_key label = kvm_opr_label_to_identities <> label

  abbrev id_key : ℕ → String
  id_key identity = kvm_opr_identity_to_label <> format_uint identity

  -- The state after the first write.
  abbrev recorded : ℕ → String → Operator E → Operator E
  recorded identity label s =
      wrote d (id_key identity) label
        (record s { map_identity_to_label = insert identity label s.map_identity_to_label })

  stored-recorded :
      (identity : ℕ) (label : String) (s : Operator E)
      → lawful.read (recorded identity label s).etcd (id_key identity) ≡ some label
  stored-recorded identity label s =
      read-put d healthy lawful (id_key identity) label _ (id_key identity)
      ∙ (rw (==_refl (id_key identity)))

  other-recorded :
      (identity : ℕ) (label l : String) (s : Operator E)
      → lawful.read (recorded identity label s).etcd (label_key l)
        ≡ lawful.read s.etcd (label_key l)
  unfolding apart
  other-recorded identity label l s =
      read-put d healthy lawful (id_key identity) label _ (label_key l)
      ∙ (rw (
          ==-apart kvm_opr_identity_to_label kvm_opr_label_to_identities (format_uint identity) l
            refl))

  -- The label's slice with the identity behind it, in memory and in the store.
  abbrev listed_anew : ℕ → String → Operator E → Operator E
  listed_anew identity label s =
      wrote d (label_key label)
        (marshal_ids (
          lookup label
            (insert label (identities_of label s ++ identity ∷ []) s.map_label_to_identities)))
        (record s {
          map_label_to_identities =
              insert label (identities_of label s ++ identity ∷ []) s.map_label_to_identities;
        })

  add_to_label-old :
      (identity : ℕ) (label : String) (s : Operator E)
      → contains (identities_of label s) identity ≡ true
      → add_to_label d identity label s ≡ done tt s
  unfolding add_to_label
  add_to_label-old identity label s h = rw (find-contains (identities_of label s) identity ∙ h)

  add_to_label-new :
      (identity : ℕ) (label : String) (s : Operator E)
      → contains (identities_of label s) identity ≡ false
      → add_to_label d identity label s ≡ done tt (listed_anew identity label s)
  unfolding add_to_label
  add_to_label-new identity label s h = rw (find-contains (identities_of label s) identity ∙ h) (
      put_or_fatal-done d healthy (label_key label) _ (record s {
        map_label_to_identities =
            insert label (identities_of label s ++ identity ∷ []) s.map_label_to_identities;
      }))

  kept-IsLabelled :
      (identity : ℕ) (label : String) (s : Operator E)
      → contains (identities_of label s) identity ≡ true
      → IsLabelled lawful.read s identity label (recorded identity label s)
  kept-IsLabelled identity label s old = record {
    label_held =
        lookup-insert identity identity label s.map_identity_to_label ∙ (rw (==_refl identity));
    label_stored = stored-recorded identity label s;
    listed = λ i. already_listed (identities_of label s) identity i old;
    others = λ l _. refl;
    others_stored = λ l _. other-recorded identity label l s;
    slice = rw old refl;
    stored = rw old (other-recorded identity label label s);
  }

  listed_anew-IsLabelled :
      (identity : ℕ) (label : String) (s : Operator E)
      → contains (identities_of label s) identity ≡ false
      → IsLabelled lawful.read s identity label
          (listed_anew identity label (recorded identity label s))
  unfolding apart
  listed_anew-IsLabelled identity label s new =
      let ids = identities_of label s ++ identity ∷ [] in
      let m = s.map_label_to_identities in
      record {
        label_held =
            lookup-insert identity identity label s.map_identity_to_label ∙ (rw (==_refl identity));
        label_stored =
            read-put d healthy lawful (label_key label) _ _ (id_key identity)
            ∙ (rw
                (==-apart kvm_opr_label_to_identities kvm_opr_identity_to_label label
                  (format_uint identity) refl)
                (stored-recorded identity label s));
        listed = λ i. rw (
          lookup-insert label label ids m,
          ==_refl label,
          contains-append (identities_of label s) (identity ∷ []) i,
          contains-singleton identity i,
        );
        others = λ l n. lookup-insert label l ids m ∙ (rw (==_of_ne label l (λ e. n (sym e))));
        others_stored = λ l n.
            read-put d healthy lawful (label_key label) _ _ (label_key l)
            ∙ (rw
                (==_of_ne (label_key label) (label_key l)
                  (λ e. n (sym (append_cancel_left kvm_opr_label_to_identities label l e))))
                (other-recorded identity label l s));
        slice = rw new (lookup-insert label label ids m ∙ (rw (==_refl label) refl));
        stored = rw new (
            read-put d healthy lawful (label_key label) _ _ (label_key label)
            ∙ (rw (==_refl (label_key label)) (
                ap (λ o. some (marshal_ids o))
                  (lookup-insert label label ids m ∙ (rw (==_refl label) refl)))));
      }

  -- On a healthy store that keeps etcd's promises, the update returns with the identity's label
  -- recorded in memory and in the store, and with the identity listed under the label beside those
  -- it had. If the label listed it before, the label's list is left as it was in memory and in the
  -- store, published or not; otherwise the identity is put behind the list, which is then
  -- published. The lists of other labels stay as they were, in memory and in the store.
  pub update_identity_labels_map-IsLabelled :
      (identity : ℕ) (label : String) (s : Operator E)
      → Ensures
          (λ _ s'. IsLabelled lawful.read s identity label s')
          (update_identity_labels_map d identity label s)
  unfolding update_identity_labels_map
  update_identity_labels_map-IsLabelled identity label s =
      rw
        (put_or_fatal-done d healthy (id_key identity) label
          (record s { map_identity_to_label = insert identity label s.map_identity_to_label }))
        (elim (Bool-cases (contains (identities_of label s) identity)) [
          | inl old ↦
              rw (add_to_label-old identity label (recorded identity label s) old)
                (kept-IsLabelled identity label s old)
          | inr new ↦
              rw (add_to_label-new identity label (recorded identity label s) new)
                (listed_anew-IsLabelled identity label s new)
        ])
