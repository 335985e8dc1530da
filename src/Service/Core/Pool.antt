-- ===== src/Service/Core/Pool.antt =====
-- What GetAllEtcdEWLabels leaves in the pool of the core daemon.
pub mod Refresh
use mathlib.Core.Option.{get_or as value_or, some_inj}
use text.Mathlib.TextLemmas.{append_cancel_left}
use kvm_service.Prelude.{
  starts_with-first, ℕ, String, List, [], ◌∷◌, Option, none, some, true, ◌≡◌, refl, sym, ◌∙◌, ap,
  subst, Option-cases, GoMap, lookup, insert, lookup-insert, lookup-entries, All-lookup,
  HasDistinctKeys, All, All-map, ◌<>◌, string_eq, starts_with, starts_with_long, starts_with_refl,
  ==_cases, ==_refl, ==_of_ne, if◌then◌else◌, inl, inr,
}
use kvm_service.Constants.{kvm_opr_label_to_identities}
use kvm_service.Go.Outcome.{Result-cases, Returns, for_each}
use kvm_service.Go.Outcome.Rules.{Returns-continue, Returns-weaken, Returns-for_all}
use kvm_service.Go.Json.{unmarshal_ids}
use kvm_service.Types.Events.{K8sKubeArmorHostPolicyEventWithIdentity}
use kvm_service.Etcd.Driver.{Driver, IsLawful}
use kvm_service.Etcd.Client.{etcd_get, etcd_get_raw, raw_response}
use kvm_service.Etcd.Laws.{etcd_get_raw-ok, etcd_get-ok}
use kvm_service.Service.State.{Kvms}
use kvm_service.Service.Server.{get_or_fatal, get_raw_or_fatal, for_response, last_of_key}
use kvm_service.Service.Server.Reads.{read-of_lookup}
use kvm_service.Service.Core.{
  store_identities, refresh_label, gather_labels, get_all_etcd_ew_labels,
}

-- Every key under the prefix is the prefix and the last part of the key: no label has a `/`.
abbrev pub IsPlain : (String → Option String) → Type 0
IsPlain read =
    (key value : String)
    → starts_with key kvm_opr_label_to_identities ≡ true
    → read key ≡ some value
    → key ≡ kvm_opr_label_to_identities <> last_of_key key

-- The pool has what the store lists under the label.
abbrev pub IsFresh : (String → Option String) → String → GoMap String (List ℕ) → Type 0
IsFresh read label pool =
    (value : String)
    → read (kvm_opr_label_to_identities <> label) ≡ some value
    → (ids : Option (List ℕ)) × (unmarshal_ids value ≡ some ids)
      × (lookup label pool ≡ some (value_or ids []))

-- The run has changed nothing but the pool.
pub record IsSame {E : Type 0} (e : E) (sent : List K8sKubeArmorHostPolicyEventWithIdentity)
    (labels : Option (List String)) (s : Kvms E) : Type 0 where
  pub etcd : s.etcd ≡ e
  pub messages : s.sent ≡ sent
  pub known : s.etcd_ew_labels ≡ labels

-- An entry of the store under the prefix of the labels' lists.
abbrev IsEntry : (String → Option String) → String × String → Type 0
IsEntry read (key, value) =
    (starts_with key kvm_opr_label_to_identities ≡ true) × (read key ≡ some value)

module _ {E : Type 0} (read : String → Option String) (plain : IsPlain read) (e : E)
    (sent : List K8sKubeArmorHostPolicyEventWithIdentity) (labels : Option (List String)) where
  -- One entry: its label is fresh then, and no other label is staler than before.
  insert-IsFresh :
      (key value : String) (ids : Option (List ℕ)) (pool : GoMap String (List ℕ)) (label : String)
      → IsEntry read (key, value)
      → unmarshal_ids value ≡ some ids
      → IsFresh read label pool
      → IsFresh read label (insert (last_of_key key) (value_or ids []) pool)
  insert-IsFresh key value ids pool label (under, stored) parsed fresh v listed =
      elim (==_cases (last_of_key key) label) [
        | inl same ↦
            let q : read key ≡ some v =
              ap read
                (plain key value under stored ∙ ap (λ l. kvm_opr_label_to_identities <> l) same)
              ∙ listed in
            (
              ids,
              subst (λ x. unmarshal_ids x ≡ some ids) (some_inj.0 (sym stored ∙ q)) parsed,
              lookup-insert (last_of_key key) label (value_or ids []) pool
                  ∙ (rw (same, ==_refl label) refl),
            )
        | inr other ↦
            let (old, p, r) = fresh v listed in
            (
              old,
              p,
              lookup-insert (last_of_key key) label (value_or ids []) pool
                  ∙ (rw (==_of_ne _ _ other) r),
            )
      ]

  insert-IsFresh_self :
      (key value : String) (ids : Option (List ℕ)) (pool : GoMap String (List ℕ))
      → IsEntry read (key, value)
      → unmarshal_ids value ≡ some ids
      → IsFresh read (last_of_key key) (insert (last_of_key key) (value_or ids []) pool)
  insert-IsFresh_self key value ids pool (under, stored) parsed v listed =
      let q : read key ≡ some v = ap read (plain key value under stored) ∙ listed in
      (
        ids,
        subst (λ x. unmarshal_ids x ≡ some ids) (some_inj.0 (sym stored ∙ q)) parsed,
        lookup-insert (last_of_key key) (last_of_key key) (value_or ids []) pool
            ∙ (rw (==_refl (last_of_key key)) refl),
      )

  abbrev pub Kept : Kvms E → Type 0
  Kept s = IsSame e sent labels s

  store_identities-fresh :
      (entry : String × String) (s : Kvms E)
      → IsEntry read entry
      → Kept s
      → Returns
          (λ _ t.
            Kept t
            × IsFresh read (last_of_key entry.0) t.map_label_to_identities
            × ((label : String)
                → IsFresh read label s.map_label_to_identities
                → IsFresh read label t.map_label_to_identities))
          (store_identities entry s)
  unfolding store_identities
  store_identities-fresh (key, value) s entry kept = elim (Option-cases (unmarshal_ids value)) [
    | inl h ↦ rw (h, store_identities) tt
    | inr (ids, h) ↦
        rw (h, store_identities)
          (
            record { etcd = kept.etcd; messages = kept.messages; known = kept.known },
            insert-IsFresh_self key value ids s.map_label_to_identities entry h,
            λ label fresh.
                insert-IsFresh key value ids s.map_label_to_identities label entry h fresh,
          )
  ]

  -- The same rules the loops over the response.
  abbrev pub Grown : Kvms E → Kvms E → Type 0
  Grown s t =
      Kept t
      × ((label : String)
          → IsFresh read label s.map_label_to_identities
          → IsFresh read label t.map_label_to_identities)

  store_each-fresh :
      (kvs : GoMap String String) (s : Kvms E)
      → All (IsEntry read) kvs
      → Kept s
      → Returns
          (λ _ t.
            Grown s t × All (λ y. IsFresh read (last_of_key y.0) t.map_label_to_identities) kvs)
          (for_each kvs store_identities s)
  store_each-fresh kvs s entries kept =
      Returns-weaken _ _ (for_each kvs store_identities s)
        (Returns-for_all (Grown s) (IsEntry read)
          (λ y t. IsFresh read (last_of_key y.0) t.map_label_to_identities) kvs store_identities s
          (λ y s' entry (kept', grown).
            Returns-weaken _ _ (store_identities y s') (store_identities-fresh y s' entry kept')
              (λ _ t (kept'', fresh, keep). (
                (kept'', λ label f. keep label (grown label f)),
                fresh,
                λ z f. keep (last_of_key z.0) f,
              )))
          entries (kept, λ label f. f))
        (λ _ t (grown, fresh, keep). (grown, fresh))

  -- A key that is stored is the prefix and its last part, so the last part is the label.
  label-last :
      (label value : String)
      → read (kvm_opr_label_to_identities <> label) ≡ some value
      → last_of_key (kvm_opr_label_to_identities <> label) ≡ label
  label-last label value h = sym (
      append_cancel_left kvm_opr_label_to_identities _ _ (
        plain (kvm_opr_label_to_identities <> label) value
          (starts_with_long kvm_opr_label_to_identities label) h))

  -- The loop over a response leaves the label fresh whose list was asked for.
  pub for_response-fresh :
      (label : String) (kvs : GoMap String String) (s : Kvms E)
      → ((k : String)
          → lookup k kvs
            ≡ (if starts_with k (kvm_opr_label_to_identities <> label) then read k else none))
      → HasDistinctKeys kvs
      → Kept s
      → Returns
          (λ _ t. Grown s t × IsFresh read label t.map_label_to_identities)
          (for_response (raw_response kvs) store_identities s)
  unfolding for_response raw_response
  for_response-fresh label [] s answers distinct kept = tt
  for_response-fresh label (kv ∷ kvs) s answers distinct kept =
      Returns-weaken _ _ (for_each (kv ∷ kvs) store_identities s)
        (store_each-fresh (kv ∷ kvs) s
          (All-map _ (IsEntry read) entry (kv ∷ kvs) (lookup-entries (kv ∷ kvs) distinct)) kept)
        (λ _ t (grown, all). (grown, asked t all))
    where
      key : String
      key = kvm_opr_label_to_identities <> label

      entry : (y : String × String) → lookup y.0 (kv ∷ kvs) ≡ some y.1 → IsEntry read y
      entry (k, v) found =
          let (under, stored) = read-of_lookup read key (some (kv ∷ kvs)) answers k v found in
          (starts_with-first kvm_opr_label_to_identities label k under, stored)

      asked :
          (t : Kvms E)
          → All (λ y. IsFresh read (last_of_key y.0) t.map_label_to_identities) (kv ∷ kvs)
          → IsFresh read label t.map_label_to_identities
      asked t all v listed =
          subst (λ l. IsFresh read l t.map_label_to_identities) (label-last label v listed)
            (All-lookup (λ y. IsFresh read (last_of_key y.0) t.map_label_to_identities) key v
              (kv ∷ kvs) all (answers key ∙ (rw (starts_with_refl key) listed)))
            v listed
