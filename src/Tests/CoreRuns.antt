-- ===== src/Tests/CoreRuns.antt =====
-- Runs of the delivery of policies (src/service/core/kvmsUpdate.go) on a store in memory.
use kvm_service.Service.State.{Kvms, unmade}
use kvm_service.Service.Core.Stalled.{IsStalled, update_host_security_policies-IsStalled}
use mathlib.Core.Option.{some_inj, get_or as value_or}
use kvm_service.Prelude.{
  String, [], ◌∷◌, none, some, ◌≡◌, refl, subst, inl, inr, GoMap, lookup, ==_cases, ==_refl,
  ==_of_ne, ◌<>◌, nat_eq, string_eq, arith,
}
use kvm_service.Constants.{kvm_opr_label_to_identities}
use kvm_service.Go.Strconv.{pos}
use kvm_service.Go.Strings.{split}
use kvm_service.Go.Outcome.{Ensures, ok}
use kvm_service.Go.Json.{marshal_ids}
use kvm_service.Go.Json.RoundTrip.{unmarshal_ids-marshal_ids}
use kvm_service.Service.Core.Progress.{IsReadable, update_host_security_policies-returns}
use kvm_service.Types.Events.{HostSecuritySpec, K8sKubeArmorHostPolicyEvent}
use kvm_service.Common.Match.{JsonCodec, clone}
use kvm_service.Etcd.Memory.{memory, memory-IsLawful, memory-IsHealthy}
use kvm_service.Service.Server.{last_of_key}
use kvm_service.Service.Server.Departure.{list_key}
use kvm_service.Service.Core.{label_texts, update_host_security_policies}
use kvm_service.Service.Core.Pool.{IsPlain}
use kvm_service.Service.Core.Delivery.{HasNotified, IsCurrent}
use kvm_service.Tests.ServiceRuns.{all-IsReceived, listed, service}

-- A store with the list of one label.
abbrev pub published : GoMap String String
published = (list_key "a=b", marshal_ids (some listed)) ∷ []

pub last_of_list : last_of_key (list_key "a=b") ≡ "a=b"
unfolding last_of_key split
last_of_list = refl

pub published-IsPlain : IsPlain (λ j. lookup j published)
unfolding lookup
published-IsPlain key value under stored = elim (==_cases (list_key "a=b") key) [
  | inl same ↦
      subst (λ k. k ≡ kvm_opr_label_to_identities <> last_of_key k) same (rw last_of_list refl)
  | inr differ ↦
      let q : none ≡ some value = rw (==_of_ne (list_key "a=b") key differ) at stored in cc
]

-- The response comes in its own order.
abbrev pub as_is : GoMap String String → GoMap String String
as_is m = m

abbrev pub spec : HostSecuritySpec
spec = record {
  node_selector = record { match_labels = some (("a", "b") ∷ []); identities = [] };
  process = record {
    match_paths = [];
    match_directories = [];
    match_patterns = [];
    severity = pos 1;
    tags = [];
    message = "";
    action = "Block";
  };
  file = record {
    match_paths = [];
    match_directories = [];
    match_patterns = [];
    severity = pos 1;
    tags = [];
    message = "";
    action = "Block";
  };
  network = record {
    match_protocols = [];
    severity = pos 1;
    tags = [];
    message = "";
    action = "Block";
  };
  capabilities = record {
    match_capabilities = [];
    severity = pos 1;
    tags = [];
    message = "";
    action = "Block";
  };
  app_armor = "";
  severity = pos 1;
  tags = [];
  message = "";
  action = "Block";
}

abbrev pub event : K8sKubeArmorHostPolicyEvent
event = record {
  type = "ADDED";
  object = record {
    metadata = record { name = "policy"; labels = none };
    spec = spec;
    status = record { status = "OK" };
  };
}

-- A codec that knows the one spec.
abbrev pub codec : JsonCodec HostSecuritySpec
codec = record { marshal = λ _. "spec"; unmarshal = λ _. ok spec }

pub published-IsReadable : IsReadable (λ j. lookup j published)
unfolding lookup
published-IsReadable key value under stored = elim (==_cases (list_key "a=b") key) [
  | inl same ↦
      let q : marshal_ids (some listed) ≡ value = some_inj.0 (rw (same, ==_refl key) at stored) in
      rw (← q, unmarshal_ids-marshal_ids listed (omega arith, (omega arith, (omega arith, tt))))
        (λ e. cc)
  | inr differ ↦
      let q : none ≡ some value = rw (==_of_ne (list_key "a=b") key differ) at stored in cc
]

update_host_security_policies-returns_example :
    Ensures
      (λ _ t.
        HasNotified event (label_texts (value_or spec.node_selector.match_labels [])) [] t
        × IsCurrent (memory-IsLawful.read published) t)
      (update_host_security_policies memory as_is codec event (service published))
unfolding memory-IsLawful clone
update_host_security_policies-returns_example =
    update_host_security_policies-returns memory memory-IsHealthy memory-IsLawful as_is
      (λ P m all. all) event codec spec (service published) refl published-IsPlain
      published-IsReadable tt all-IsReceived

-- The service before InitServer.
abbrev early : Kvms (GoMap String String)
early = record (service published) { policy_chan = unmade }

update_host_security_policies-IsStalled_example :
    IsStalled
      (memory-IsLawful.read published)
      (label_texts (value_or spec.node_selector.match_labels []))
      early
      (update_host_security_policies memory as_is codec event early)
unfolding memory-IsLawful clone
update_host_security_policies-IsStalled_example =
    update_host_security_policies-IsStalled memory memory-IsHealthy memory-IsLawful as_is
      (λ P m all. all) event codec spec early refl published-IsPlain published-IsReadable tt refl
