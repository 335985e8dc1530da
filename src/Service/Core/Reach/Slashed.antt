-- ===== src/Service/Core/Reach/Slashed.antt =====
-- A published label with a slash (GetAllEtcdEWLabels in src/service/core/kvmsUpdate.go): the service
-- takes the part behind its last slash for the label, and asks for the list of that.
use mathlib.Core.Option.{get_or as value_or}
use kvm_service.Prelude.{
  String, List, [], none, some, true, ◌≡◌, ◌≢◌, refl, ◌∙◌, GoMap, contains, All-contains, ◌<>◌,
  string_eq, map-empty, starts_with, ==_cases, Bool-cases, inl, inr, if◌then◌else◌,
}
use kvm_service.Constants.{kvm_opr_label_to_identities}
use kvm_service.Go.Outcome.{Returns, fatal_on, for_each}
use kvm_service.Go.Outcome.Rules.{
  Returns-continue, Returns-weaken, Returns-both, Returns-for_all, Returns-fatal_on,
}
use kvm_service.Types.Events.{HostSecuritySpec, K8sKubeArmorHostPolicyEvent}
use kvm_service.Common.Match.{JsonCodec, clone}
use kvm_service.Etcd.Driver.{Driver, IsLawful, IsHealthy}
use kvm_service.Etcd.Client.{raw_response}
use kvm_service.Service.State.{Kvms}
use kvm_service.Service.Writes.{get_raw_or_fatal-done, pairs}
use kvm_service.Service.Server.{for_response, last_of_key}
use kvm_service.Service.Server.Reads.{IsBare}
use kvm_service.Service.Server.Departure.{lookup-pairs}
use kvm_service.Service.Core.{
  gather_labels, refresh_label, get_all_etcd_ew_labels, update_host_security_policies,
}
use kvm_service.Service.Core.Pool.Refresh.{all_unit, gather_labels-IsSame}
use kvm_service.Service.Core.Reach.{IsOrder, gather_labels-last}
use kvm_service.Service.Core.Unwritten.{refresh_label-On}

module _ {E : Type 0} (d : Driver E) (healthy : IsHealthy d) (lawful : IsLawful d)
    (range : GoMap String String → GoMap String String) (e : E) (short : String)
    (bare : IsBare (lawful.read e) (kvm_opr_label_to_identities <> short)) where
  none_under :
      (j : String)
      → (if starts_with j (kvm_opr_label_to_identities <> short) then lawful.read e j else none)
        ≡ none
  none_under j = elim (Bool-cases (starts_with j (kvm_opr_label_to_identities <> short))) [
    | inl h ↦ rw (h, bare j h) refl
    | inr h ↦ rw h refl
  ]

  -- The answer for the short label is nil, and its pairs are asked for all the same.
  refresh_short : (s : Kvms E) → s.etcd ≡ e → Returns (λ _ _. ⊥) (refresh_label d range short s)
  unfolding refresh_label for_response raw_response
  refresh_short s at_e =
      let key = kvm_opr_label_to_identities <> short in
      let nothing : pairs d healthy key s.etcd ≡ [] =
        map-empty _ (λ j. lookup-pairs d healthy lawful key s.etcd j ∙ (rw at_e (none_under j))) in
      rw (get_raw_or_fatal-done d healthy key s, nothing) tt

  refresh_label-other :
      (label : String) (s : Kvms E)
      → s.etcd ≡ e
      → Returns (λ _ t. (t.etcd ≡ e) × (label ≢ short)) (refresh_label d range label s)
  refresh_label-other label s at_e = elim (==_cases label short) [
    | inl same ↦
        Returns-weaken (λ _ _. ⊥) _ (refresh_label d range label s) (rw same (refresh_short s at_e))
          (λ _ _ never. absurd never)
    | inr other ↦
        Returns-weaken _ _ (refresh_label d range label s)
          (refresh_label-On d healthy range e label s at_e) (λ _ t on. (on, other))
  ]

  -- A loop over labels with the short one among them.
  refresh_all :
      (labels : List String) (s : Kvms E)
      → s.etcd ≡ e
      → contains labels short ≡ true
      → Returns (λ _ _. ⊥) (for_each labels (refresh_label d range) s)
  refresh_all labels s at_e among =
      Returns-weaken _ _ (for_each labels (refresh_label d range) s)
        (Returns-for_all (λ t. t.etcd ≡ e) (λ _. Unit {0}) (λ label _. label ≢ short) labels
          (refresh_label d range) s
          (λ label t _ on.
            Returns-weaken _ _ (refresh_label d range label t) (refresh_label-other label t on)
              (λ _ u (on', other). (on', other, λ _ q. q)))
          (all_unit labels) at_e)
        (λ _ _ (_, others, _). All-contains (λ label. label ≢ short) labels short others among refl)

-- On a healthy store that keeps etcd's promises, where the list of a label is stored, nothing is
-- stored under the key that the part of the label's key behind its last slash makes, and a run
-- ranges over the entries of a map in some order: the update for a host policy does not return,
-- whatever the policy.
pub update_host_security_policies-crashes :
    {E : Type 0} (d : Driver E) (healthy : IsHealthy d) (lawful : IsLawful d)
    (range : GoMap String String → GoMap String String) (order : IsOrder range)
    (json : JsonCodec HostSecuritySpec) (event : K8sKubeArmorHostPolicyEvent) (label value : String)
    (s : Kvms E)
    → lawful.read s.etcd (kvm_opr_label_to_identities <> label) ≡ some value
    → IsBare
        (lawful.read s.etcd)
        (kvm_opr_label_to_identities <> last_of_key (kvm_opr_label_to_identities <> label))
    → Returns (λ _ _. ⊥) (update_host_security_policies d range json event s)
unfolding update_host_security_policies get_all_etcd_ew_labels
update_host_security_policies-crashes d healthy lawful range order json event label value s stored
      bare =
    let short = last_of_key (kvm_opr_label_to_identities <> label) in
    Returns-continue (λ _ t. t ≡ s) (λ _ _. ⊥) (fatal_on (clone json event.object.spec) s) _
      (Returns-fatal_on (λ _ t. t ≡ s) (clone json event.object.spec) s (λ _. refl))
      (λ spec t same.
        Returns-continue (λ _ _. ⊥) (λ _ _. ⊥) (get_all_etcd_ew_labels d range t) _
          (rw same (
            Returns-continue
              (λ _ u. (u.etcd ≡ s.etcd) × (contains (value_or u.etcd_ew_labels []) short ≡ true))
              (λ _ _. ⊥) (gather_labels d range s) _
              (Returns-both _ _ (gather_labels d range s)
                (Returns-weaken _ (λ _ u. u.etcd ≡ s.etcd) (gather_labels d range s)
                  (gather_labels-IsSame d lawful range s) (λ _ _ q. q.etcd))
                (gather_labels-last d healthy lawful range order label s value stored))
              (λ _ u (at_e, among).
                refresh_all d healthy lawful range s.etcd short bare (value_or u.etcd_ew_labels [])
                  u at_e among)))
          (λ _ _ never. absurd never))
