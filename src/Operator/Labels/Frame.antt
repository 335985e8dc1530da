-- ===== src/Operator/Labels/Frame.antt =====
-- What UpdateIdentityLabelsMap leaves alone, whatever etcd answers, and which stored lists the writes
-- for a new workload change.
use mathlib.Core.Option.{get_or as value_or}
use text.Mathlib.TextLemmas.{append-nil}
use kvm_service.Prelude.{
  ℕ, zero, suc, ◌+◌, ◌%◌, ◌^◌, String, List, [], ◌∷◌, Option, none, some, true, false, ◌≡◌, ◌≢◌,
  refl, sym, ◌∙◌, subst, GoMap, lookup, ◌<>◌, ◌==◌, nat_eq, string_eq, starts_with,
  starts_with-apart, apart, Bool-cases, ==_of_ne, inl, inr,
}
use kvm_service.Constants.{
  kvm_opr_identity_to_ewname, kvm_opr_ewname_to_identity, kvm_opr_identity_to_label,
  kvm_opr_label_to_identities,
}
use kvm_service.Go.Outcome.{Returns}
use kvm_service.Go.Outcome.Rules.{Returns-continue}
use kvm_service.Go.Strconv.{format_uint}
use kvm_service.Etcd.Driver.{Driver, IsLawful, IsHealthy}
use kvm_service.Operator.State.{Operator}
use kvm_service.Operator.Writes.{wrote, Returns-put, read-put}
use kvm_service.Operator.Identities.{is_free, enter, register, generate_external_workload_identity}
use kvm_service.Operator.Labels.{
  convert_from, convert_labels_to_str, find, publish_label, add_to_label,
  update_identity_labels_map,
}

module _ {E : Type 0} (d : Driver E) (Q : Operator E → Type 0)
    (records : (s : Operator E) (m : GoMap ℕ String)
      → Q s
      → Q (record s { map_identity_to_label = m }))
    (lists : (s : Operator E) (m : GoMap String (List ℕ))
      → Q s
      → Q (record s { map_label_to_identities = m }))
    (label : String)
    (record_put : (s : Operator E) (x value : String)
      → Q s
      → Q (wrote d (kvm_opr_identity_to_label <> x) value s))
    (list_put : (s : Operator E) (value : String)
      → Q s
      → Q (wrote d (kvm_opr_label_to_identities <> label) value s)) where
  -- What the writes keep, the method keeps.
  pub update_identity_labels_map-keeps :
      (identity : ℕ) (s : Operator E)
      → Q s
      → Returns (λ _ t. Q t) (update_identity_labels_map d identity label s)
  unfolding update_identity_labels_map add_to_label publish_label
  update_identity_labels_map-keeps identity s q =
      Returns-continue (λ _ t. Q t) (λ _ t. Q t) _ _
        (Returns-put d Q _ _ _ (record_put _ (format_uint identity) label (records s _ q)))
        (λ _ t h.
          elim (Bool-cases
            (find (value_or (lookup label t.map_label_to_identities) []) identity).1) [
              | inl old ↦ rw (old, add_to_label) h
              | inr new ↦
                  rw (new, add_to_label) (Returns-put d Q _ _ _ (list_put _ _ (lists t _ h)))
            ])

-- No key under another prefix is the key of a list.
pub other_key :
    (prefix x j : String)
    → apart prefix kvm_opr_label_to_identities ≡ true
    → starts_with j kvm_opr_label_to_identities ≡ true
    → ((prefix <> x) == j) ≡ false
other_key prefix x j h under = ==_of_ne (prefix <> x) j (λ e.
    let q : starts_with (prefix <> x) kvm_opr_label_to_identities ≡ false =
      subst (λ l. starts_with (prefix <> x) l ≡ false) (append-nil kvm_opr_label_to_identities)
        (starts_with-apart prefix kvm_opr_label_to_identities x "" h) in
    cc (q, e, under))

-- The stored lists but for the label's are the same.
abbrev pub SameLists : (String → Option String) → String → (String → Option String) → Type 0
SameLists read label read' =
    (j : String)
    → starts_with j kvm_opr_label_to_identities ≡ true
    → j ≢ kvm_opr_label_to_identities <> label
    → read' j ≡ read j

-- All of them are.
abbrev pub AllLists : (String → Option String) → (String → Option String) → Type 0
AllLists read read' =
    (j : String) → starts_with j kvm_opr_label_to_identities ≡ true → read' j ≡ read j

module _ {E : Type 0} (d : Driver E) (healthy : IsHealthy d) (lawful : IsLawful d) where
  -- A write under another prefix.
  pub put-AllLists :
      (prefix x value : String) (e : E)
      → apart prefix kvm_opr_label_to_identities ≡ true
      → AllLists (lawful.read e) (lawful.read (d.put (prefix <> x) value none e).1)
  put-AllLists prefix x value e h j under =
      read-put d healthy lawful (prefix <> x) value e j ∙ (rw (other_key prefix x j h under))

  pub update_identity_labels_map-SameLists :
      (identity : ℕ) (label : String) (s : Operator E)
      → Returns
          (λ _ t. SameLists (lawful.read s.etcd) label (lawful.read t.etcd))
          (update_identity_labels_map d identity label s)
  unfolding apart
  update_identity_labels_map-SameLists identity label s =
      update_identity_labels_map-keeps d
        (λ t. SameLists (lawful.read s.etcd) label (lawful.read t.etcd)) (λ t m q. q) (λ t m q. q)
        label
        (λ t x value q j under n.
          put-AllLists kvm_opr_identity_to_label x value t.etcd refl j under ∙ q j under n)
        (λ t value q j under n.
          read-put d healthy lawful (kvm_opr_label_to_identities <> label) value t.etcd j
          ∙ (rw (==_of_ne (kvm_opr_label_to_identities <> label) j (λ e. n (sym e))) (q j under n)))
        identity s (λ j under n. refl)

  pub generate-AllLists :
      (random : ℕ → ℕ) (rounds : ℕ) (name : String) (s : Operator E)
      → Returns
          (λ _ t. AllLists (lawful.read s.etcd) (lawful.read t.etcd))
          (generate_external_workload_identity d random rounds name s)
  unfolding generate_external_workload_identity register enter apart
  generate-AllLists random zero name s = tt
  generate-AllLists random (suc rounds) name s =
      let identity = random s.drawn % 2 ^ 16 in
      let P = λ (t : Operator E). AllLists (lawful.read s.etcd) (lawful.read t.etcd) in
      elim (Bool-cases (is_free identity s)) [
        | inl free ↦
            rw (free, Returns, generate_external_workload_identity)
              (Returns-continue (λ _ t. P t) (λ _ t. P t) _ _
                (Returns-put d P _ _ _ (λ j under.
                  put-AllLists kvm_opr_identity_to_ewname (format_uint identity) name s.etcd refl j
                    under))
                (λ _ s1 h1.
                  Returns-continue (λ _ t. P t) (λ _ t. P t) _ _
                    (Returns-put d P _ _ s1 (λ j under.
                      put-AllLists kvm_opr_ewname_to_identity name (format_uint identity) s1.etcd
                        refl j under
                      ∙ h1 j under))
                    (λ _ s2 h2. h2)))
        | inr taken ↦
            rw (taken, Returns, generate_external_workload_identity)
              (generate-AllLists random rounds name (record s { drawn = s.drawn + 1 }))
      ]

-- The text of one label.
pub convert_labels_to_str-single :
    (k v : String) → convert_labels_to_str (some ((k, v) ∷ [])) ≡ k <> "=" <> v
unfolding convert_labels_to_str convert_from
convert_labels_to_str-single k v = refl
