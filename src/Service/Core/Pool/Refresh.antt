-- ===== src/Service/Core/Pool/Refresh.antt =====
-- GetAllEtcdEWLabels as a whole: the pool is fresh for every label that the daemon knows.
use mathlib.Core.Option.{get_or as value_or}
use kvm_service.Prelude.{
  String, List, [], ◌∷◌, Option, none, ◌≡◌, refl, ◌∙◌, ap, GoMap, All, ◌<>◌, string_eq, starts_with,
  if◌then◌else◌, inl, inr,
}
use kvm_service.Constants.{kvm_opr_label_to_identities}
use kvm_service.Go.Outcome.{Result-cases, Returns, for_each}
use kvm_service.Go.Outcome.Rules.{Returns-continue, Returns-weaken, Returns-for_all}
use kvm_service.Types.Events.{K8sKubeArmorHostPolicyEventWithIdentity}
use kvm_service.Etcd.Driver.{Driver, IsLawful}
use kvm_service.Etcd.Client.{etcd_get, etcd_get_raw}
use kvm_service.Etcd.Laws.{etcd_get_raw-ok, etcd_get-ok}
use kvm_service.Service.State.{Kvms}
use kvm_service.Service.Server.{get_or_fatal, get_raw_or_fatal}
use kvm_service.Service.Core.{refresh_label, gather_labels, get_all_etcd_ew_labels}
use kvm_service.Service.Core.Pool.{IsPlain, IsFresh, IsSame, Grown, for_response-fresh}

-- Every label that the daemon knows is fresh in its pool; the store and the channel are as before.
pub record IsRefreshed {E : Type 0} (read : String → Option String) (s t : Kvms E) : Type 0 where
  pub etcd : t.etcd ≡ s.etcd
  pub messages : t.sent ≡ s.sent
  pub fresh : All (λ l. IsFresh read l t.map_label_to_identities) (value_or t.etcd_ew_labels [])

pub all_unit : {A : Type 0} (xs : List A) → All (λ _. Unit {0}) xs
all_unit [] = tt
all_unit (x ∷ xs) = (tt, all_unit xs)

module _ {E : Type 0} (d : Driver E) (lawful : IsLawful d)
    (range : GoMap String String → GoMap String String) (e : E) (plain : IsPlain (lawful.read e))
    (sent : List K8sKubeArmorHostPolicyEventWithIdentity) (labels : Option (List String)) where
  refresh_label-fresh :
      (label : String) (s : Kvms E)
      → IsSame e sent labels s
      → Returns
          (λ _ t.
            Grown (lawful.read e) plain e sent labels s t
            × IsFresh (lawful.read e) label t.map_label_to_identities)
          (refresh_label d range label s)
  unfolding refresh_label get_raw_or_fatal etcd_get_raw
  refresh_label-fresh label s same =
      let key = kvm_opr_label_to_identities <> label in
      elim (Result-cases (d.get key s.etcd)) [
        | inr (m, failed) ↦ rw (failed, etcd_get_raw) tt
        | inl (kvs, answer) ↦ rw (etcd_get_raw-ok d s.etcd_client key s.etcd kvs answer) (
            for_response-fresh (lawful.read e) plain e sent labels label kvs s
              (λ k.
                lawful.get-read key s.etcd kvs k answer
                ∙ ap (λ x. if starts_with k key then lawful.read x k else none) same.etcd)
              (lawful.get-distinct key s.etcd kvs answer) same)
      ]

  pub refresh_each-fresh :
      (ls : List String) (s : Kvms E)
      → IsSame e sent labels s
      → Returns
          (λ _ t.
            IsSame e sent labels t
            × All (λ l. IsFresh (lawful.read e) l t.map_label_to_identities) ls)
          (for_each ls (refresh_label d range) s)
  refresh_each-fresh ls s same =
      Returns-weaken _ _ (for_each ls (refresh_label d range) s)
        (Returns-for_all (IsSame e sent labels) (λ _. Unit {0})
          (λ l t. IsFresh (lawful.read e) l t.map_label_to_identities) ls (refresh_label d range) s
          (λ l s' _ same'.
            Returns-weaken _ _ (refresh_label d range l s') (refresh_label-fresh l s' same')
              (λ _ t (grown, fresh). (grown.0, fresh, grown.1)))
          (all_unit ls) same)
        (λ _ t (same', all, keep). (same', all))

module _ {E : Type 0} (d : Driver E) (lawful : IsLawful d)
    (range : GoMap String String → GoMap String String) where
  pub gather_labels-IsSame :
      (s : Kvms E)
      → Returns (λ _ t. IsSame s.etcd s.sent t.etcd_ew_labels t) (gather_labels d range s)
  unfolding gather_labels get_or_fatal etcd_get
  gather_labels-IsSame s = elim (Result-cases (d.get kvm_opr_label_to_identities s.etcd)) [
    | inr (m, failed) ↦ rw (failed, etcd_get) tt
    | inl (kvs, answer) ↦
        rw (etcd_get-ok d s.etcd_client kvm_opr_label_to_identities s.etcd kvs answer)
          (record { etcd = refl; messages = refl; known = refl })
  ]

  -- Where no label in the store has a slash, and whenever GetAllEtcdEWLabels returns, the pool has,
  -- for each known label, the list that the store holds under it, if there is one; the store and
  -- the channel are unchanged.
  pub get_all_etcd_ew_labels-IsRefreshed :
      (s : Kvms E)
      → IsPlain (lawful.read s.etcd)
      → Returns (λ _ t. IsRefreshed (lawful.read s.etcd) s t) (get_all_etcd_ew_labels d range s)
  unfolding get_all_etcd_ew_labels
  get_all_etcd_ew_labels-IsRefreshed s plain =
      Returns-continue (λ _ t. IsSame s.etcd s.sent t.etcd_ew_labels t) _ (gather_labels d range s)
        _ (gather_labels-IsSame s)
        (λ _ s' same.
          Returns-weaken _ _ (for_each (value_or s'.etcd_ew_labels []) (refresh_label d range) s')
            (refresh_each-fresh d lawful range s.etcd plain s.sent s'.etcd_ew_labels
              (value_or s'.etcd_ew_labels []) s' same)
            (λ _ t (same', all). record {
              etcd = same'.etcd;
              messages = same'.messages;
              fresh = rw same'.known all;
            }))
