-- ===== src/Service/Core/Unwritten.antt =====
-- What the core daemon reads for a policy it does not write: the store is as before.
use mathlib.Core.Option.{get_or as value_or}
use kvm_service.Prelude.{
  String, [], ◌∷◌, ◌≡◌, ◌∙◌, ◌<>◌, ◌==◌, not, ◌&&◌, string_eq, GoMap, All, Option-cases, inl, inr,
}
use kvm_service.Constants.{kvm_opr_label_to_identities}
use kvm_service.Go.Outcome.{Prog, Returns, fatal_on, for_each}
use kvm_service.Go.Outcome.Rules.{
  Returns-continue, Returns-if, Returns-weaken, Returns-for_each, Returns-for_all, Returns-fatal_on,
}
use kvm_service.Go.Json.{unmarshal_ids}
use kvm_service.Types.Events.{HostSecuritySpec, K8sKubeArmorHostPolicyEvent}
use kvm_service.Common.Match.{JsonCodec, clone}
use kvm_service.Etcd.Driver.{Driver, IsHealthy}
use kvm_service.Etcd.Client.{raw_response}
use kvm_service.Service.State.{Kvms}
use kvm_service.Service.Writes.{get_or_fatal-done, get_raw_or_fatal-done}
use kvm_service.Service.Server.{for_response}
use kvm_service.Service.Core.{
  label_texts, store_identities, gather_labels, refresh_label, get_all_etcd_ew_labels,
  notify_labels, update_host_security_policies, handle_event,
}
use kvm_service.Service.Core.Pool.Refresh.{all_unit}
use kvm_service.Service.Core.Delivery.{notify_labels-HasNotified}

-- A loop over a response; without one the call panics.
pub for_response-keeps :
    {E : Type 0} (P : Kvms E → Type 0) (G : String × String → Type 0) (kvs : GoMap String String)
    (body : String × String → Prog (Kvms E) (Unit {0})) (s : Kvms E)
    → ((y : String × String) (t : Kvms E) → G y → P t → Returns (λ _ u. P u) (body y t))
    → All G kvs
    → P s
    → Returns (λ _ t. P t) (for_response (raw_response kvs) body s)
unfolding for_response raw_response
for_response-keeps P G [] body s keep all h = tt
for_response-keeps P G (kv ∷ kvs) body s keep all h =
    Returns-weaken _ _ (for_each (kv ∷ kvs) body s)
      (Returns-for_all P G (λ _ _. Unit {0}) (kv ∷ kvs) body s
        (λ y t g p. Returns-weaken _ _ (body y t) (keep y t g p) (λ _ u q. (q, tt, λ _ _. tt))) all
        h)
      (λ _ t (q, _, _). q)

module _ {E : Type 0} (d : Driver E) (healthy : IsHealthy d)
    (range : GoMap String String → GoMap String String) (e : E) where
  abbrev On : Kvms E → Type 0
  On s = s.etcd ≡ e

  store_identities-On :
      (y : String × String) (s : Kvms E) → On s → Returns (λ _ t. On t) (store_identities y s)
  unfolding store_identities
  store_identities-On (key, value) s h = elim (Option-cases (unmarshal_ids value)) [
    | inl failed ↦ rw (failed, store_identities) tt
    | inr (ids, parsed) ↦ rw (parsed, store_identities) h
  ]

  pub refresh_label-On :
      (label : String) (s : Kvms E) → On s → Returns (λ _ t. On t) (refresh_label d range label s)
  unfolding refresh_label
  refresh_label-On label s h =
      rw (get_raw_or_fatal-done d healthy (kvm_opr_label_to_identities <> label) s) (
        for_response-keeps On (λ _. Unit {0}) _ store_identities s
          (λ y t _ k. store_identities-On y t k) (all_unit _) h)

  get_all_etcd_ew_labels-On :
      (s : Kvms E) → On s → Returns (λ _ t. On t) (get_all_etcd_ew_labels d range s)
  unfolding get_all_etcd_ew_labels gather_labels
  get_all_etcd_ew_labels-On s h =
      rw (get_or_fatal-done d healthy kvm_opr_label_to_identities s)
        (Returns-for_each On _ (refresh_label d range) _ (λ l t k. refresh_label-On l t k) h)

  -- The update for a policy writes nothing to the store.
  pub handle_event-On :
      (json : JsonCodec HostSecuritySpec) (event : K8sKubeArmorHostPolicyEvent) (s : Kvms E)
      → On s
      → Returns (λ _ t. On t) (handle_event d range json event s)
  unfolding handle_event update_host_security_policies
  handle_event-On json event s h =
      let P = λ (_ : Unit {0}) (t : Kvms E). On t in
      Returns-if P
        (not (event.object.status.status == "") && not (event.object.status.status == "OK")) _ _
        (λ _. h)
        (λ _.
          Returns-continue (λ _ t. On t) P (fatal_on (clone json event.object.spec) s) _
            (Returns-fatal_on (λ _ t. On t) (clone json event.object.spec) s (λ _. h))
            (λ spec t k.
              Returns-continue P P (get_all_etcd_ew_labels d range t) _
                (get_all_etcd_ew_labels-On t k)
                (λ _ u m.
                  let labels = label_texts (value_or spec.node_selector.match_labels []) in
                  Returns-weaken _ P (notify_labels d range event labels u)
                    (notify_labels-HasNotified d range event labels u)
                    (λ _ v (_, only). only.etcd ∙ m))))
