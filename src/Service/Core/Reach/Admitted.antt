-- ===== src/Service/Core/Reach/Admitted.antt =====
-- From the operator to the agents: a host policy that selects the label of a workload that the
-- operator has admitted goes out to the identity of the workload.
use mathlib.Core.Option.{get_or as value_or, some_inj}
use text.Mathlib.TextLemmas.{append_cancel_left}
use kvm_service.Prelude.{
  ℕ, ◌+◌, ◌%◌, ◌^◌, ◌<◌, String, [], ◌∷◌, ◌++◌, some, true, false, ◌≡◌, refl, sym, ◌∙◌, ap, GoMap,
  lookup, All, All-map, ◌<>◌, ==_cases, nat_eq, string_eq, starts_with_long, inl, inr,
  append_nil_right, All-contains,
}
use kvm_service.Constants.{kvm_opr_label_to_identities}
use kvm_service.Go.Outcome.{ok, Ensures}
use kvm_service.Go.Outcome.Rules.{Ensures-both, Ensures-weaken}
use kvm_service.Go.Json.{marshal_ids}
use kvm_service.Go.Json.RoundTrip.{unmarshal_ids-marshal_ids}
use kvm_service.Common.Match.{JsonCodec, clone}
use kvm_service.Types.Events.{HostSecuritySpec, K8sKubeArmorHostPolicyEvent}
use kvm_service.Types.Workloads.{ExternalWorkloadSecurityPolicy}
use kvm_service.Etcd.Driver.{Driver, IsLawful, IsHealthy}
use kvm_service.Operator.State.{Operator}
use kvm_service.Operator.Identities.{is_free}
use kvm_service.Operator.Labels.{convert_labels_to_str}
use kvm_service.Operator.Labels.Frame.{convert_labels_to_str-single}
use kvm_service.Operator.Events.{contains_policy, label_of, added}
use kvm_service.Operator.Events.Admission.{IsAdmitted, IsKept, added-IsAdmitted}
use kvm_service.Service.Sends.{IsReceived}
use kvm_service.Service.State.{Kvms}
use kvm_service.Service.Server.{last_of_key}
use kvm_service.Service.Core.{label_texts, update_host_security_policies}
use kvm_service.Service.Core.Pool.{IsPlain, IsFresh}
use kvm_service.Service.Core.Delivery.{message, addressees}
use kvm_service.Service.Core.Progress.{IsReadable, IsListed, update_host_security_policies-returns}
use kvm_service.Service.Core.Reach.{IsSent, IsSent-map, IsSent-behind, IsOrder, update-Knows}

module _ {E : Type 0} (d : Driver E) (healthy : IsHealthy d) (lawful : IsLawful d)
    (range : GoMap String String → GoMap String String) (order : IsOrder range) (label : String)
    (plain_label : last_of_key (kvm_opr_label_to_identities <> label) ≡ label) where
  -- What was stored stays plain, readable and listed where the label's list is stored anew.
  admitted-IsPlain :
      (name : String) (o t : Operator E)
      → IsAdmitted lawful.read label name o t
      → IsPlain (lawful.read o.etcd)
      → IsPlain (lawful.read t.etcd)
  admitted-IsPlain name o t a plain key value under stored =
      elim (==_cases key (kvm_opr_label_to_identities <> label)) [
        | inl same ↦ rw (same, plain_label)
        | inr other ↦ plain key value under (sym (a.others key under other) ∙ stored)
      ]

  admitted-IsReadable :
      (name : String) (o t : Operator E)
      → IsAdmitted lawful.read label name o t
      → IsReadable (lawful.read o.etcd)
      → IsReadable (lawful.read t.etcd)
  admitted-IsReadable name o t a readable key value under stored =
      elim (==_cases key (kvm_opr_label_to_identities <> label)) [
        | inl same ↦
            let q : marshal_ids (some a.ids) ≡ value =
              some_inj.0 (sym a.stored ∙ ap (lawful.read t.etcd) (sym same) ∙ stored) in
            λ e. let r = unmarshal_ids-marshal_ids a.ids a.small in cc
        | inr other ↦ readable key value under (sym (a.others key under other) ∙ stored)
      ]

  admitted-IsListed :
      (name : String) (o t : Operator E)
      → IsAdmitted lawful.read label name o t
      → (l : String) → IsListed (lawful.read o.etcd) l
      → IsListed (lawful.read t.etcd) l
  admitted-IsListed name o t a l listed = elim (==_cases l label) [
    | inl same ↦ record { value = marshal_ids (some a.ids); stored = rw same a.stored }
    | inr other ↦ record {
      value = listed.value;
      stored =
          a.others (kvm_opr_label_to_identities <> l)
            (starts_with_long kvm_opr_label_to_identities l)
            (λ e. other (append_cancel_left kvm_opr_label_to_identities l label e))
          ∙ listed.stored;
    }
  ]

  -- The update for a policy that selects the label.
  update-sends :
      (event : K8sKubeArmorHostPolicyEvent) (json : JsonCodec HostSecuritySpec)
      (spec : HostSecuritySpec) (name : String) (o o' : Operator E) (s : Kvms E)
      → clone json event.object.spec ≡ ok spec
      → label_texts (value_or spec.node_selector.match_labels []) ≡ label ∷ []
      → IsPlain (lawful.read o.etcd)
      → IsReadable (lawful.read o.etcd)
      → All (IsListed (lawful.read o.etcd)) (value_or s.etcd_ew_labels [])
      → IsReceived s.policy_chan
      → (a : IsAdmitted lawful.read label name o o')
      → Ensures
          (λ _ t. IsSent (message event a.identity) t.sent)
          (update_host_security_policies d range json event (record s { etcd = o'.etcd }))
  unfolding addressees
  update-sends event json spec name o o' s h selects plain readable known received a =
      let s' = record s { etcd = o'.etcd } in
      let run = update_host_security_policies d range json event s' in
      let plain' = admitted-IsPlain name o o' a plain in
      Ensures-weaken _ _ run
        (Ensures-both _ _ run
          (update_host_security_policies-returns d healthy lawful range order.adds_none event json
            spec s' h plain' (admitted-IsReadable name o o' a readable)
            (All-map _ _ (admitted-IsListed name o o' a) _ known) received)
          (update-Knows d healthy lawful range order label plain_label event json spec s' _ h plain'
            a.stored))
        (λ _ t ((notified, current), knows).
          let (ids, parsed, held) =
            All-contains (λ l. IsFresh (lawful.read o'.etcd) l t.map_label_to_identities) _ label
              current knows _ a.stored in
          let same : some a.ids ≡ ids =
            some_inj.0 (sym (unmarshal_ids-marshal_ids a.ids a.small) ∙ parsed) in
          let pool : lookup label t.map_label_to_identities ≡ some a.ids =
            held ∙ ap (λ x. some (value_or x [])) (sym same) in
          elim (rw selects at notified) [
            | inr (unselected, _) ↦ absurd (unselected ((λ e. cc), (knows, tt)))
            | inl (_, sent) ↦
                rw (sent, pool)
                  (IsSent-behind _ s.sent _ (
                    IsSent-map event (a.ids ++ []) a.identity
                      (rw (append_nil_right a.ids) a.holds)))
          ])

-- The workload of the name has an identity, to which a message with the policy was sent.
pub record IsReached {E : Type 0} (event : K8sKubeArmorHostPolicyEvent) (name : String)
    (o : Operator E) (s : Kvms E) : Type 0 where
  pub identity : ℕ
  pub named : lookup name o.map_ewname_to_identity ≡ some identity
  pub sent : IsSent (message event identity) s.sent

module _ {E : Type 0} (d : Driver E) (healthy : IsHealthy d) (lawful : IsLawful d)
    (range : GoMap String String → GoMap String String) (order : IsOrder range) where
  -- On one healthy store that keeps etcd's promises, where the operator handles an ADDED policy
  -- that it does not list and whose selector is one label, the label has no slash, a number drawn
  -- within the rounds is free, the identities that the operator holds for the label have 16 bits
  -- and are the published ones, every stored list can be read and has a label without a slash, the
  -- daemon's known labels have stored lists, a run ranges over the entries of a map in some order,
  -- and the policy channel is made and streams receive every message: the operator returns, and the
  -- daemon's update for a host policy whose selector is exactly that label, on the store as the
  -- operator left it, returns and has sent a message with the policy to the identity that the
  -- workload's name now has.
  pub added-IsReached :
      (random : ℕ → ℕ) (rounds k : ℕ) (policy : ExternalWorkloadSecurityPolicy) (key value : String)
      (o : Operator E) (event : K8sKubeArmorHostPolicyEvent) (json : JsonCodec HostSecuritySpec)
      (spec : HostSecuritySpec) (s : Kvms E)
      → policy.metadata.node_selector.match_labels ≡ some ((key, value) ∷ [])
      → last_of_key (kvm_opr_label_to_identities <> (key <> "=" <> value)) ≡ key <> "=" <> value
      → k < rounds
      → is_free (random (o.drawn + k) % 2 ^ 16) o ≡ true
      → contains_policy o.external_workload_security_policies policy ≡ false
      → IsKept lawful.read (key <> "=" <> value) o
      → clone json event.object.spec ≡ ok spec
      → spec.node_selector.match_labels ≡ some ((key, value) ∷ [])
      → IsPlain (lawful.read o.etcd)
      → IsReadable (lawful.read o.etcd)
      → All (IsListed (lawful.read o.etcd)) (value_or s.etcd_ew_labels [])
      → IsReceived s.policy_chan
      → Ensures
          (λ _ o'.
            Ensures
              (λ _ t. IsReached event policy.metadata.name o' t)
              (update_host_security_policies d range json event (record s { etcd = o'.etcd })))
          (added d random rounds policy o)
  unfolding label_texts
  added-IsReached random rounds k policy key value o event json spec s labels plain_label h free new
        kept cloned selects plain readable known received =
      let label = key <> "=" <> value in
      let same : label_of policy ≡ label =
        ap convert_labels_to_str labels ∙ convert_labels_to_str-single key value in
      Ensures-weaken _ _ (added d random rounds policy o)
        (added-IsAdmitted d healthy lawful random rounds k policy o h free new (rw same kept))
        (λ _ o' a.
          let a' : IsAdmitted lawful.read label policy.metadata.name o o' = rw same at a in
          Ensures-weaken _ _
            (update_host_security_policies d range json event (record s { etcd = o'.etcd }))
            (update-sends d healthy lawful range order label plain_label event json spec
              policy.metadata.name o o' s cloned (rw selects refl) plain readable known received a')
            (λ _ t sent. record { identity = a'.identity; named = a'.named; sent = sent }))
