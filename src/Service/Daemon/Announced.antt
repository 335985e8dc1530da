-- ===== src/Service/Daemon/Announced.antt =====
-- Which messages the watch of host policies sends, whatever etcd answers.
use mathlib.Core.Option.{get_or as value_or}
use mathlib.Core.List.{Mem, mem-cons_self, mem-cons_of_mem}
use kvm_service.Prelude.{
  ℕ, String, List, [], ◌∷◌, Option, none, some, Bool, true, false, ◌&&◌, not, ◌≡◌, refl, ◌⊎◌, inl,
  inr, GoMap, length, ltb, All, All-append, All-map, ◌<>◌, ◌==◌, string_eq, Option-cases,
}
use text.Mathlib.TextEquality.{eq_iff}
use kvm_service.Constants.{khp_crd_name, kvm_opr_label_to_identities}
use kvm_service.Go.Outcome.{Outcome, Result-cases, Returns, for_each}
use kvm_service.Go.Outcome.Rules.{
  Returns-continue, Returns-for_each, Returns-for_all, Returns-weaken, Returns-if,
}
use kvm_service.Go.Json.{unmarshal_ids}
use kvm_service.Common.Environment.{Environment}
use kvm_service.Common.Match.{JsonCodec, clone, match_identities}
use kvm_service.Types.Events.{
  HostSecuritySpec, K8sKubeArmorHostPolicyEvent, K8sKubeArmorHostPolicyEventWithIdentity,
}
use kvm_service.Etcd.Driver.{Driver}
use kvm_service.Etcd.Client.{etcd_get, etcd_get_raw}
use kvm_service.K8s.Handler.{K8sHandler, Platform, watch_k8s_host_security_policies}
use kvm_service.K8s.Watch.{Watching, first_events, watch_rounds-for_each, Returns-daemon_side}
use kvm_service.Service.State.{Kvms}
use kvm_service.Service.Sends.{Returns-send}
use kvm_service.Service.Server.{get_or_fatal, get_raw_or_fatal, for_response}
use kvm_service.Service.Core.{
  store_identities, pass_over_to_kvms_agent, get_identity_from_label_pool, refresh_label,
  gather_labels, get_all_etcd_ew_labels, notify_label, notify_labels, update_host_security_policies,
  handle_event,
}
use kvm_service.Service.Core.Delivery.{message}
use kvm_service.Service.Daemon.{watch_host_security_policies}

module _ {E : Type 0} (d : Driver E) (range : GoMap String String → GoMap String String)
    (P : K8sKubeArmorHostPolicyEventWithIdentity → Type 0) where
  abbrev AllSent : Kvms E → Type 0
  AllSent s = All P s.sent

  abbrev KeepsAll : {A : Type 0} → Outcome (Kvms E) A → Type 0
  KeepsAll {A} m = Returns (λ (_ : A) t. AllSent t) m

  store_identities-KeepsAll :
      (entry : String × String) (s : Kvms E) → AllSent s → KeepsAll (store_identities entry s)
  unfolding store_identities
  store_identities-KeepsAll (key, value) s h = elim (Option-cases (unmarshal_ids value)) [
    | inl bad ↦ rw (bad, store_identities) tt
    | inr (ids, read) ↦ rw (read, store_identities) h
  ]

  response-KeepsAll :
      (answer : Option (GoMap String String)) (s : Kvms E)
      → AllSent s
      → KeepsAll (for_response answer store_identities s)
  unfolding for_response
  response-KeepsAll none s h = tt
  response-KeepsAll (some kvs) s h =
      Returns-for_each AllSent kvs store_identities s store_identities-KeepsAll h

  refresh_label-KeepsAll :
      (label : String) (s : Kvms E) → AllSent s → KeepsAll (refresh_label d range label s)
  unfolding refresh_label get_raw_or_fatal
  refresh_label-KeepsAll label s h =
      elim (Result-cases
        (etcd_get_raw d s.etcd_client (kvm_opr_label_to_identities <> label) s.etcd)) [
          | inr (m, failed) ↦ rw failed tt
          | inl (answer, read) ↦ rw read (response-KeepsAll answer s h)
        ]

  gather_labels-KeepsAll : (s : Kvms E) → AllSent s → KeepsAll (gather_labels d range s)
  unfolding gather_labels get_or_fatal
  gather_labels-KeepsAll s h =
      elim (Result-cases (etcd_get d s.etcd_client kvm_opr_label_to_identities s.etcd)) [
        | inr (m, failed) ↦ rw failed tt
        | inl (answer, read) ↦ rw read h
      ]

  get_all-KeepsAll : (s : Kvms E) → AllSent s → KeepsAll (get_all_etcd_ew_labels d range s)
  unfolding get_all_etcd_ew_labels
  get_all-KeepsAll s h =
      Returns-continue (λ _ t. AllSent t) (λ _ t. AllSent t) (gather_labels d range s) _
        (gather_labels-KeepsAll s h)
        (λ _ s' h'.
          Returns-for_each AllSent (value_or s'.etcd_ew_labels []) (refresh_label d range) s'
            refresh_label-KeepsAll h')

  module _ (event : K8sKubeArmorHostPolicyEvent) (allowed : (i : ℕ) → P (message event i)) where
    pass_over-KeepsAll :
        (identities : List ℕ) (s : Kvms E)
        → AllSent s
        → KeepsAll (pass_over_to_kvms_agent event identities s)
    unfolding pass_over_to_kvms_agent
    pass_over-KeepsAll identities s h =
        Returns-for_each AllSent identities _ s
          (λ i t k.
            Returns-send AllSent (message event i) t
              (All-append P t.sent (message event i ∷ []) k (allowed i, tt)))
          h

    notify_label-KeepsAll :
        (label : String) (s : Kvms E) → AllSent s → KeepsAll (notify_label d range event label s)
    unfolding notify_label
    notify_label-KeepsAll label s h =
        let identities = get_identity_from_label_pool label s in
        Returns-if (λ _ t. AllSent t) (ltb 0 (length identities)) _ _
          (λ _. pass_over-KeepsAll identities s h) (λ _. h)

    notify_labels-KeepsAll :
        (labels : List String) (s : Kvms E)
        → AllSent s
        → KeepsAll (notify_labels d range event labels s)
    unfolding notify_labels
    notify_labels-KeepsAll labels s h = elim (Option-cases s.etcd_ew_labels) [
      | inl nil ↦ rw (nil, notify_labels) h
      | inr (known, e) ↦
          rw (e, notify_labels)
            (Returns-if (λ _ t. AllSent t) (match_identities labels known) _ _
              (λ _.
                Returns-for_each AllSent labels (notify_label d range event) s notify_label-KeepsAll
                  h)
              (λ _. h))
    ]

    update-KeepsAll :
        (json : JsonCodec HostSecuritySpec) (s : Kvms E)
        → AllSent s
        → KeepsAll (update_host_security_policies d range json event s)
    unfolding update_host_security_policies
    update-KeepsAll json s h = elim (Result-cases (clone json event.object.spec)) [
      | inr (m, failed) ↦ rw (failed, update_host_security_policies) tt
      | inl (spec, cloned) ↦
          rw (cloned, update_host_security_policies)
            (Returns-continue (λ _ t. AllSent t) (λ _ t. AllSent t)
              (get_all_etcd_ew_labels d range s) _ (get_all-KeepsAll s h)
              (λ _ t k. notify_labels-KeepsAll _ t k))
    ]

-- The API server's status of the policy, where it has one, is OK.
abbrev pub IsGood : K8sKubeArmorHostPolicyEvent → Type 0
IsGood event = (event.object.status.status ≡ "") ⊎ (event.object.status.status ≡ "OK")

-- A message that carries a good event of the watch and closes no stream.
pub record IsAnnounced (events : List K8sKubeArmorHostPolicyEvent)
    (m : K8sKubeArmorHostPolicyEventWithIdentity) : Type 0 where
  pub announced : Mem m.event events
  pub good : IsGood m.event
  pub stays : m.close_connection ≡ false

All-Mem : {A : Type 0} (xs : List A) → All (λ x. Mem x xs) xs
All-Mem [] = tt
All-Mem (x ∷ xs) = (mem-cons_self, All-map _ _ (λ y h. mem-cons_of_mem x h) xs (All-Mem xs))

no_other_status : (a b : Bool) → (not a && not b) ≡ false → (a ≡ true) ⊎ (b ≡ true)
no_other_status true b h = inl refl
no_other_status false true h = inr refl
no_other_status false false h = cc

module _ {E : Type 0} (d : Driver E) (range : GoMap String String → GoMap String String)
    (json : JsonCodec HostSecuritySpec) where
  handle_event-KeepsAll :
      (events : List K8sKubeArmorHostPolicyEvent) (event : K8sKubeArmorHostPolicyEvent) (s : Kvms E)
      → Mem event events
      → All (IsAnnounced events) s.sent
      → Returns (λ _ t. All (IsAnnounced events) t.sent) (handle_event d range json event s)
  unfolding handle_event
  handle_event-KeepsAll events event s among h =
      let status = event.object.status.status in
      Returns-if (λ _ t. All (IsAnnounced events) t.sent)
        (not (status == "") && not (status == "OK")) _ _ (λ _. h)
        (λ good.
          let allowed : IsGood event = elim (no_other_status _ _ good) [
            | inl e ↦ inl ((eq_iff _ _).0 e)
            | inr e ↦ inr ((eq_iff _ _).0 e)
          ] in
          update-KeepsAll d range (IsAnnounced events) event
            (λ i. record { announced = among; good = allowed; stays = refl }) json s h)

module _ {H R : Type 0} (p : Platform H R) (env : Environment)
    (decoded : R → List K8sKubeArmorHostPolicyEvent) where
  -- The events of the watcher's first rounds.
  abbrev pub watched : K8sHandler → ℕ → H → List K8sKubeArmorHostPolicyEvent
  watched kh =
      first_events p env kh khp_crd_name (watch_k8s_host_security_policies p env kh) decoded

module _ {E H R : Type 0} (d : Driver E) (p : Platform H R) (env : Environment)
    (range : GoMap String String → GoMap String String) (json : JsonCodec HostSecuritySpec)
    (decoded : R → List K8sKubeArmorHostPolicyEvent) where
  -- From a daemon that has sent nothing, and whatever etcd and the API server answer, the first
  -- rounds of the watch of host policies, when they return, have sent only messages that close no
  -- stream and carry an event of those rounds whose status is empty or OK.
  pub watch_host_security_policies-IsAnnounced :
      (kh : K8sHandler) (rounds : ℕ) (w : Watching (Kvms E) H)
      → w.daemon.sent ≡ []
      → Returns
          (λ _ w'. All (IsAnnounced (watched p env decoded kh rounds w.api)) w'.daemon.sent)
          (watch_host_security_policies d p env range json decoded kh rounds w)
  unfolding watch_host_security_policies
  watch_host_security_policies-IsAnnounced kh rounds w fresh =
      let events = watched p env decoded kh rounds w.api in
      Returns-daemon_side (λ (s : Kvms E). All (IsAnnounced events) s.sent) _
        (rw
          (watch_rounds-for_each p env kh khp_crd_name (watch_k8s_host_security_policies p env kh)
            decoded (handle_event d range json) rounds w)
          (Returns-weaken _ _ (for_each events (handle_event d range json) w.daemon)
            (Returns-for_all (λ s. All (IsAnnounced events) s.sent) (λ e. Mem e events)
              (λ _ _. Unit {0}) events (handle_event d range json) w.daemon
              (λ event s among h.
                Returns-weaken _ _ (handle_event d range json event s)
                  (handle_event-KeepsAll d range json events event s among h)
                  (λ _ t k. (k, tt, λ y u. tt)))
              (All-Mem events) (rw fresh tt))
            (λ _ t k. k.0)))
