-- ===== src/Service/Core/Reach.antt =====
-- A label with a stored list is known to the core daemon once it has read the labels, and what it means
-- that a message was sent.
pub mod Admitted
pub mod Slashed
use mathlib.Core.Option.{get_or as value_or, some_inj}
use text.Mathlib.TextLemmas.{append_cancel_left}
use kvm_service.Prelude.{
  ℕ, ◌+◌, ◌%◌, ◌^◌, ◌<◌, String, List, [], ◌∷◌, ◌++◌, map, Option, none, some, Bool, true, false,
  ◌||◌, ◌≡◌, ◌≢◌, refl, sym, ◌∙◌, ap, subst, GoMap, lookup, All, All-map, contains, contains-append,
  keys, ◌<>◌, ◌==◌, ==_refl, ==_cases, ==_of_ne, nat_eq, string_eq, starts_with, starts_with_long,
  Bool-cases, Option-cases, inl, inr, or_true, arith, append_assoc, append_nil_right, All-contains,
}
use kvm_service.Constants.{kvm_opr_label_to_identities}
use kvm_service.Go.Outcome.{ok, Returns, Ensures, for_each}
use kvm_service.Go.Outcome.Rules.{
  Returns-continue, Returns-weaken, Returns-both, Returns-Ensures, Ensures-both, Ensures-weaken,
}
use kvm_service.Go.Json.{marshal_ids, unmarshal_ids}
use kvm_service.Go.Json.RoundTrip.{unmarshal_ids-marshal_ids}
use kvm_service.Common.Match.{JsonCodec, clone}
use kvm_service.Types.Events.{
  HostSecuritySpec, K8sKubeArmorHostPolicyEvent, K8sKubeArmorHostPolicyEventWithIdentity,
}
use kvm_service.Types.Workloads.{ExternalWorkloadSecurityPolicy}
use kvm_service.Etcd.Driver.{Driver, IsLawful, IsHealthy}
use kvm_service.Etcd.Client.{response_map}
use kvm_service.Etcd.Laws.{lookup_nil, lookup-etcd_get}
use kvm_service.Operator.State.{Operator}
use kvm_service.Operator.Identities.{is_free}
use kvm_service.Operator.Labels.{convert_labels_to_str}
use kvm_service.Operator.Labels.Frame.{SameLists, convert_labels_to_str-single}
use kvm_service.Operator.Events.{contains_policy, label_of, added}
use kvm_service.Operator.Events.Admission.{IsAdmitted, IsKept, added-IsAdmitted}
use kvm_service.Service.State.{Kvms}
use kvm_service.Service.Server.{last_of_key}
use kvm_service.Service.Writes.{get_or_fatal-done, pairs}
use kvm_service.Service.Core.{
  append_nil, label_texts, gather_labels, refresh_label, get_all_etcd_ew_labels, notify_labels,
  update_host_security_policies,
}
use kvm_service.Service.Core.Pool.{IsPlain, IsFresh, IsSame}
use kvm_service.Service.Core.Pool.Refresh.{gather_labels-IsSame, refresh_each-fresh}
use kvm_service.Service.Core.Delivery.{
  message, addressees, HasNotified, IsSelected, IsCurrent, notify_labels-HasNotified,
}
use kvm_service.Service.Core.Progress.{IsReadable, IsListed, update_host_security_policies-returns}

-- A message that was sent, with what was sent before and after it.
pub record IsSent (m : K8sKubeArmorHostPolicyEventWithIdentity)
    (sent : List K8sKubeArmorHostPolicyEventWithIdentity) : Type 0 where
  pub before : List K8sKubeArmorHostPolicyEventWithIdentity
  pub after : List K8sKubeArmorHostPolicyEventWithIdentity
  pub split : sent ≡ before ++ m ∷ after

-- Each identity of a list gets its message.
pub IsSent-map :
    (event : K8sKubeArmorHostPolicyEvent) (ids : List ℕ) (i : ℕ)
    → contains ids i ≡ true
    → IsSent (message event i) (map (message event) ids)
unfolding contains
IsSent-map event [] i h = cc
IsSent-map event (j ∷ ids) i h = elim (==_cases j i) [
  | inl same ↦ record { before = []; after = map (message event) ids; split = rw same }
  | inr other ↦
      let further = IsSent-map event ids i (rw (==_of_ne j i other) at h) in
      record {
        before = message event j ∷ further.before;
        after = further.after;
        split = ap (λ l. message event j ∷ l) further.split;
      }
]

pub IsSent-behind :
    (m : K8sKubeArmorHostPolicyEventWithIdentity)
    (first sent : List K8sKubeArmorHostPolicyEventWithIdentity)
    → IsSent m sent
    → IsSent m (first ++ sent)
IsSent-behind m first sent s = record {
  before = first ++ s.before;
  after = s.after;
  split = ap (λ l. first ++ l) s.split ∙ sym (append_assoc first s.before (m ∷ s.after));
}

contains-map_last :
    (ks : List String) (key : String)
    → contains ks key ≡ true
    → contains (map last_of_key ks) (last_of_key key) ≡ true
unfolding contains
contains-map_last [] key h = cc
contains-map_last (k ∷ ks) key h = elim (==_cases k key) [
  | inl same ↦ rw (same, ==_refl (last_of_key key))
  | inr other ↦
      rw (contains-map_last ks key (rw (==_of_ne k key other) at h))
        (or_true (last_of_key k == last_of_key key))
]

contains-append_nil :
    (old : Option (List String)) (ls : List String) (l : String)
    → contains ls l ≡ true
    → contains (value_or (append_nil old ls) []) l ≡ true
unfolding contains
contains-append_nil none [] l h = cc
contains-append_nil none (x ∷ ls) l h = h
contains-append_nil (some old) ls l h = contains-append old ls l ∙ (rw h (or_true (contains old l)))

lookup_of_nil :
    (m : Option (GoMap String String)) (k v : String)
    → lookup_nil k m ≡ some v
    → lookup k (value_or m []) ≡ some v
lookup_of_nil none k v h = cc
lookup_of_nil (some m) k v h = h

-- `range` gives every entry of a map, in some order.
pub record IsOrder (range : GoMap String String → GoMap String String) : Type 1 where
  pub adds_none :
      (P : String × String → Type 0) (m : GoMap String String) → All P m → All P (range m)
  pub drops_none :
      (m : GoMap String String) (k v : String)
      → lookup k m ≡ some v
      → contains (keys (range m)) k ≡ true

module _ {E : Type 0} (d : Driver E) (healthy : IsHealthy d) (lawful : IsLawful d)
    (range : GoMap String String → GoMap String String) (order : IsOrder range)
    (label : String) where
  -- The last part of a stored key is known as a label.
  pub gather_labels-last :
      (s : Kvms E) (value : String)
      → lawful.read s.etcd (kvm_opr_label_to_identities <> label) ≡ some value
      → Returns
          (λ _ t.
            contains
              (value_or t.etcd_ew_labels [])
              (last_of_key (kvm_opr_label_to_identities <> label))
            ≡ true)
          (gather_labels d range s)
  unfolding gather_labels
  gather_labels-last s value stored =
      let key = kvm_opr_label_to_identities <> label in
      let kvs = pairs d healthy kvm_opr_label_to_identities s.etcd in
      let found : lookup_nil key (response_map kvs) ≡ some value =
        lookup-etcd_get d lawful kvm_opr_label_to_identities s.etcd kvs
          (healthy.get_ok kvm_opr_label_to_identities s.etcd).1 key
        ∙ (rw (starts_with_long kvm_opr_label_to_identities label, stored)) in
      rw (get_or_fatal-done d healthy kvm_opr_label_to_identities s) (
        contains-append_nil s.etcd_ew_labels _ (last_of_key key) (
          contains-map_last _ key
            (order.drops_none _ key value (lookup_of_nil (response_map kvs) key value found))))

module _ {E : Type 0} (d : Driver E) (healthy : IsHealthy d) (lawful : IsLawful d)
    (range : GoMap String String → GoMap String String) (order : IsOrder range) (label : String)
    (plain_label : last_of_key (kvm_opr_label_to_identities <> label) ≡ label) where
  abbrev pub Knows : Kvms E → Type 0
  Knows t = contains (value_or t.etcd_ew_labels []) label ≡ true

  gather_labels-Knows :
      (s : Kvms E) (value : String)
      → lawful.read s.etcd (kvm_opr_label_to_identities <> label) ≡ some value
      → Returns (λ _ t. Knows t) (gather_labels d range s)
  gather_labels-Knows s value stored =
      Returns-weaken _ _ (gather_labels d range s)
        (gather_labels-last d healthy lawful range order label s value stored)
        (λ _ t known.
          subst (λ l. contains (value_or t.etcd_ew_labels []) l ≡ true) plain_label known)

  get_all-Knows :
      (s : Kvms E) (value : String)
      → IsPlain (lawful.read s.etcd)
      → lawful.read s.etcd (kvm_opr_label_to_identities <> label) ≡ some value
      → Returns (λ _ t. Knows t) (get_all_etcd_ew_labels d range s)
  unfolding get_all_etcd_ew_labels
  get_all-Knows s value plain stored =
      Returns-continue (λ _ t. IsSame s.etcd s.sent t.etcd_ew_labels t × Knows t) _
        (gather_labels d range s) _
        (Returns-both _ _ (gather_labels d range s) (gather_labels-IsSame d lawful range s)
          (gather_labels-Knows s value stored))
        (λ _ s' (same, knows).
          Returns-weaken _ _ (for_each (value_or s'.etcd_ew_labels []) (refresh_label d range) s')
            (refresh_each-fresh d lawful range s.etcd plain s.sent s'.etcd_ew_labels
              (value_or s'.etcd_ew_labels []) s' same)
            (λ _ t (same', all). rw same'.known knows))

  pub update-Knows :
      (event : K8sKubeArmorHostPolicyEvent) (json : JsonCodec HostSecuritySpec)
      (spec : HostSecuritySpec) (s : Kvms E) (value : String)
      → clone json event.object.spec ≡ ok spec
      → IsPlain (lawful.read s.etcd)
      → lawful.read s.etcd (kvm_opr_label_to_identities <> label) ≡ some value
      → Returns (λ _ t. Knows t) (update_host_security_policies d range json event s)
  unfolding update_host_security_policies
  update-Knows event json spec s value h plain stored =
      let labels = label_texts (value_or spec.node_selector.match_labels []) in
      rw h (
        Returns-continue (λ _ t. Knows t) _ (get_all_etcd_ew_labels d range s) _
          (get_all-Knows s value plain stored)
          (λ _ s' knows.
            Returns-weaken _ _ (notify_labels d range event labels s')
              (notify_labels-HasNotified d range event labels s')
              (λ _ t (notified, only). rw only.known knows)))
