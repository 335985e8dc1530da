-- ===== src/Service/Core/Delivery.antt =====
-- Which events a policy sends to the channel.
use mathlib.Core.Option.{get_or as value_or}
use kvm_service.Prelude.{
  append_assoc, append_nil_right, map-append, ◌⊎◌, ℕ, String, List, [], ◌∷◌, ◌++◌, map, Option,
  true, false, ◌≡◌, ◌≢◌, refl, sym, ◌∙◌, ap, GoMap, lookup, length, ltb, lt→ltb, Option-cases,
  string_eq, contains, All, if◌then◌else◌, Bool-cases, inl, inr, arith,
}
use kvm_service.Go.Outcome.{Ensures, done, ok, Returns, for_each}
use kvm_service.Go.Outcome.Rules.{Ensures-for_each, Returns-continue, Returns-weaken}
use kvm_service.Common.Match.{JsonCodec, clone, match_identities, match_identities_iff}
use kvm_service.Types.Events.{
  HostSecuritySpec, K8sKubeArmorHostPolicyEvent, K8sKubeArmorHostPolicyEventWithIdentity,
}
use kvm_service.Etcd.Driver.{Driver, IsLawful}
use kvm_service.Service.State.{Kvms, send}
use kvm_service.Service.Sends.{IsReceived, sending, Returns-send, send-received}
use kvm_service.Service.Core.Pool.{IsPlain, IsFresh}
use kvm_service.Service.Core.Pool.Refresh.{
  all_unit, IsRefreshed, get_all_etcd_ew_labels-IsRefreshed,
}
use kvm_service.Service.Core.{
  pass_over_to_kvms_agent, get_identity_from_label_pool, label_texts, get_all_etcd_ew_labels,
  notify_label, notify_labels, update_host_security_policies,
}

-- The message of the channel for an identity.
abbrev pub message : K8sKubeArmorHostPolicyEvent → ℕ → K8sKubeArmorHostPolicyEventWithIdentity
message event identity = record { event = event; identity = identity; close_connection = false }

-- The identities of the labels, label by label.
unfoldable pub addressees : GoMap String (List ℕ) → List String → List ℕ
addressees pool [] = []
addressees pool (label ∷ labels) = value_or (lookup label pool) [] ++ addressees pool labels

module _ {E : Type 0} (event : K8sKubeArmorHostPolicyEvent) where
  -- The state after one message for each identity.
  abbrev told : List ℕ → Kvms E → Kvms E
  told identities s = sending (map (message event) identities) s

  told-[] : (s : Kvms E) → s ≡ told [] s
  told-[] s = ap (λ l. record s { sent = l }) (sym (append_nil_right s.sent))

  told-append : (is js : List ℕ) (s : Kvms E) → told js (told is s) ≡ told (is ++ js) s
  told-append is js s =
      ap (λ l. record s { sent = l })
        (append_assoc s.sent (map (message event) is) (map (message event) js)
          ∙ ap (λ l. s.sent ++ l) (sym (map-append (message event) is js)))

  pass_over-told :
      (identities : List ℕ) (s : Kvms E)
      → Returns (λ _ t. t ≡ told identities s) (pass_over_to_kvms_agent event identities s)
  unfolding pass_over_to_kvms_agent
  pass_over-told [] s = told-[] s
  pass_over-told (i ∷ identities) s =
      Returns-continue (λ _ t. t ≡ told (i ∷ []) s) (λ _ t. t ≡ told (i ∷ identities) s)
        (send (message event i) s) _
        (Returns-send (λ t. t ≡ told (i ∷ []) s) (message event i) s refl)
        (λ _ t here.
          Returns-weaken _ _ (pass_over_to_kvms_agent event identities t)
            (pass_over-told identities t)
            (λ _ u later. later ∙ ap (told identities) here ∙ told-append (i ∷ []) identities s))

  pass_over-IsReceived :
      (identities : List ℕ) (s : Kvms E)
      → IsReceived s.policy_chan
      → Ensures (λ _ t. IsReceived t.policy_chan) (pass_over_to_kvms_agent event identities s)
  unfolding pass_over_to_kvms_agent
  pass_over-IsReceived [] s r = r
  pass_over-IsReceived (i ∷ identities) s r =
      rw (send-received (message event i) s r) (pass_over-IsReceived identities (told (i ∷ []) s) r)

  module _ (d : Driver E) (range : GoMap String String → GoMap String String) where
    notify_label-told :
        (label : String) (s : Kvms E)
        → Returns
            (λ _ t. t ≡ told (value_or (lookup label s.map_label_to_identities) []) s)
            (notify_label d range event label s)
    unfolding notify_label get_identity_from_label_pool
    notify_label-told label s = by_pool (value_or (lookup label s.map_label_to_identities) [])
      where
        by_pool :
            (pool : List ℕ)
            → Returns
                (λ _ t. t ≡ told pool s)
                (if ltb 0 (length pool) then pass_over_to_kvms_agent event pool s else done tt s)
        by_pool [] = told-[] s
        by_pool (i ∷ pool) =
            rw (lt→ltb 0 (length (i ∷ pool)) (omega arith)) (pass_over-told (i ∷ pool) s)

    notify_each-told :
        (labels : List String) (s : Kvms E)
        → Returns
            (λ _ t. t ≡ told (addressees s.map_label_to_identities labels) s)
            (for_each labels (notify_label d range event) s)
    unfolding addressees
    notify_each-told [] s = told-[] s
    notify_each-told (label ∷ labels) s =
        let pool = value_or (lookup label s.map_label_to_identities) [] in
        let rest = addressees s.map_label_to_identities labels in
        Returns-continue (λ _ t. t ≡ told pool s) (λ _ t. t ≡ told (pool ++ rest) s)
          (notify_label d range event label s) _ (notify_label-told label s)
          (λ _ t here. rw here (
            Returns-weaken _ _ (for_each labels (notify_label d range event) (told pool s))
              (notify_each-told labels (told pool s))
              (λ _ u later. later ∙ told-append pool rest s)))

    notify_label-IsReceived :
        (label : String) (s : Kvms E)
        → IsReceived s.policy_chan
        → Ensures (λ _ t. IsReceived t.policy_chan) (notify_label d range event label s)
    unfolding notify_label
    notify_label-IsReceived label s r =
        let pool = get_identity_from_label_pool label s in
        elim (Bool-cases (ltb 0 (length pool))) [
          | inl some_listed ↦ rw some_listed (pass_over-IsReceived pool s r)
          | inr none_listed ↦ rw none_listed r
        ]

    -- Where every message is received, the notification returns.
    pub notify_labels-IsReceived :
        (labels : List String) (s : Kvms E)
        → IsReceived s.policy_chan
        → Ensures (λ _ t. IsReceived t.policy_chan) (notify_labels d range event labels s)
    unfolding notify_labels
    notify_labels-IsReceived labels s r = elim (Option-cases s.etcd_ew_labels) [
      | inl h ↦ rw (h, notify_labels) r
      | inr (known, h) ↦
          rw (h, notify_labels)
            (elim (Bool-cases (match_identities labels known)) [
              | inl m ↦ rw m (
                  Ensures-for_each (λ t. IsReceived t.policy_chan) (λ _. Unit {0}) labels
                    (notify_label d range event) s (λ l t _ k. notify_label-IsReceived l t k)
                    (all_unit labels) r)
              | inr m ↦ rw m r
            ])
    ]

pub none_contained :
    (labels : List String) → labels ≢ [] → All (λ l. contains [] l ≡ true) labels → ⊥
unfolding contains
none_contained [] nonempty all = nonempty refl
none_contained (l ∷ labels) nonempty (first, rest) = let q : false ≡ true = first in cc

-- The policy has a label, and the daemon knows each of its labels.
abbrev pub IsSelected : {E : Type 0} → List String → Kvms E → Type 0
IsSelected labels s =
    (labels ≢ []) × All (λ l. contains (value_or s.etcd_ew_labels []) l ≡ true) labels

-- A policy that selects was sent to the addressees of its labels, and any other to nobody; the
-- messages that were in the channel stay there.
abbrev pub HasNotified :
    {E : Type 0}
    → K8sKubeArmorHostPolicyEvent
    → List String
    → List K8sKubeArmorHostPolicyEventWithIdentity
    → Kvms E
    → Type 0
HasNotified event labels sent s =
    (IsSelected labels s
      × (s.sent ≡ sent ++ map (message event) (addressees s.map_label_to_identities labels)))
    ⊎ ((IsSelected labels s → ⊥) × (s.sent ≡ sent))

-- The pool has the store's list under every label that the daemon knows.
abbrev pub IsCurrent : {E : Type 0} → (String → Option String) → Kvms E → Type 0
IsCurrent read s =
    All (λ l. IsFresh read l s.map_label_to_identities) (value_or s.etcd_ew_labels [])

-- What the notification leaves alone.
pub record IsOnlySent {E : Type 0} (s t : Kvms E) : Type 0 where
  pub etcd : t.etcd ≡ s.etcd
  pub pool : t.map_label_to_identities ≡ s.map_label_to_identities
  pub known : t.etcd_ew_labels ≡ s.etcd_ew_labels

module _ {E : Type 0} (d : Driver E) (range : GoMap String String → GoMap String String)
    (event : K8sKubeArmorHostPolicyEvent) where
  pub notify_labels-HasNotified :
      (labels : List String) (s : Kvms E)
      → Returns
          (λ _ s'. HasNotified event labels s.sent s' × IsOnlySent s s')
          (notify_labels d range event labels s)
  unfolding notify_labels
  notify_labels-HasNotified labels s = elim (Option-cases s.etcd_ew_labels) [
    | inl h ↦
        rw (h, notify_labels)
          (
            inr ((λ (nonempty, all). none_contained labels nonempty (rw h at all)), refl),
            record { etcd = refl; pool = refl; known = h },
          )
    | inr (known, h) ↦
        rw (h, notify_labels)
          (elim (Bool-cases (match_identities labels known)) [
            | inl m ↦ rw m (
                Returns-weaken _ _ (for_each labels (notify_label d range event) s)
                  (notify_each-told event d range labels s)
                  (λ _ t e. rw e (
                    inl (rw h ((match_identities_iff labels known).0 m), refl),
                    record { etcd = refl; pool = refl; known = h },
                  )))
            | inr m ↦ rw m (
              inr (
                (λ (nonempty, all).
                    let q : match_identities labels known ≡ true =
                      (match_identities_iff labels known).1 (nonempty, rw h at all) in
                    cc),
                refl,
              ),
              record { etcd = refl; pool = refl; known = h },
            )
          ])
  ]

  -- Where the policy's spec can be cloned and no label in the store has a slash, and whenever the
  -- update for a policy returns, it has sent one message for each identity that the pool lists
  -- under the labels of the node selector, label by label, if the selector has a label and every
  -- one is known, and nothing otherwise; nothing sent before is lost, and the pool has the store's
  -- list, where there is one, under every known label.
  pub update_host_security_policies-HasNotified :
      (lawful : IsLawful d) (json : JsonCodec HostSecuritySpec) (spec : HostSecuritySpec)
      (s : Kvms E)
      → clone json event.object.spec ≡ ok spec
      → IsPlain (lawful.read s.etcd)
      → Returns
          (λ _ t.
            HasNotified event (label_texts (value_or spec.node_selector.match_labels [])) s.sent t
            × IsCurrent (lawful.read s.etcd) t)
          (update_host_security_policies d range json event s)
  unfolding update_host_security_policies
  update_host_security_policies-HasNotified lawful json spec s h plain =
      let labels = label_texts (value_or spec.node_selector.match_labels []) in
      rw h (
        Returns-continue (λ _ t. IsRefreshed (lawful.read s.etcd) s t) _
          (get_all_etcd_ew_labels d range s) _
          (get_all_etcd_ew_labels-IsRefreshed d lawful range s plain)
          (λ _ s' refreshed.
            Returns-weaken _ _ (notify_labels d range event labels s')
              (notify_labels-HasNotified labels s')
              (λ _ t (notified, only).
                (rw (← refreshed.messages) notified, rw (only.pool, only.known) refreshed.fresh))))
