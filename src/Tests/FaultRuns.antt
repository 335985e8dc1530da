-- ===== src/Tests/FaultRuns.antt =====
-- Runs in which identity 0, a label that begins like another one, or two calls at once go wrong
-- (src/operator/core/crdHandler.go, src/service/server/kvmserver.go).
use kvm_service.Prelude.{
  ◌<>◌, delete, ap, ℕ, String, List, [], ◌∷◌, ◌++◌, none, some, true, false, ◌≡◌, ◌≢◌, refl, sym,
  subst, inl, inr, GoMap, lookup, starts_with, ==_cases, ==_of_ne, string_eq, nat_eq, arith,
}
use kvm_service.Go.Strconv.{format_uint, format_onto, digit}
use kvm_service.Go.Outcome.{Ensures, ok, exit, panicked}
use kvm_service.Go.Json.{marshal_ids}
use kvm_service.Go.Json.RoundTrip.{unmarshal_ids-marshal_ids}
use kvm_service.Go.Slice.{remove_identity, remove_from, swap_last, swapped}
use kvm_service.Go.Strings.{split}
use kvm_service.Constants.{kvm_svc_identiti_to_pod_ips}
use kvm_service.Types.Workloads.{ExternalWorkloadSecurityPolicy}
use kvm_service.Etcd.Memory.{memory, memory-IsLawful, memory-IsHealthy, under, without}
use kvm_service.Operator.State.{Operator}
use kvm_service.Service.State.{Kvms}
use kvm_service.Service.Server.{
  refused, accepted, last_of_key, update_etcd_label_to_identities_maps,
}
use kvm_service.Service.Server.Reads.{IsBare}
use kvm_service.Service.Server.Registration.{MayRegister}
use kvm_service.Service.Server.Registration.Racing.{
  register_at_once, register_in_turn, register_at_once-accepted,
}
use kvm_service.Service.Server.Departure.{seat, label_key, list_key}
use kvm_service.Service.Server.Departure.ZeroIdentity.{update_etcd_label_to_identities_maps-zero}
use kvm_service.Service.Server.Departure.Overwriting.{
  IsRemovable, text_of, update_etcd_label_to_identities_maps-overwrites,
}
use kvm_service.Tests.ServiceRuns.{listed, service, store, store_label}

-- The one workload has identity 0, and another follows it under its label.
abbrev policy : ExternalWorkloadSecurityPolicy
policy = record {
  metadata = record {
    node_selector = record { match_labels = some (("a", "b") ∷ []); identities = [] };
    name = "vm";
  };
}

abbrev zero_first : List ℕ
zero_first = 0 ∷ 5 ∷ []

abbrev operator : Operator (GoMap String String)
operator = record {
  etcd = [];
  etcd_client = record { lease_response = 7 };
  external_workload_security_policies = policy ∷ [];
  map_identity_to_ewname = (0, "vm") ∷ [];
  map_ewname_to_identity = ("vm", 0) ∷ [];
  map_identity_to_label = (0, "a=b") ∷ [];
  map_label_to_identities = ("a=b", zero_first) ∷ [];
  drawn = 0;
}

-- The same in the store, for the service.
abbrev zero_store : GoMap String String
zero_store = (list_key "a=b", marshal_ids (some zero_first)) ∷ (label_key 0, "a=b") ∷ []

zero_label : lookup (label_key 0) zero_store ≡ some "a=b"
unfolding lookup format_uint format_onto digit
zero_label = refl

label_not_under : starts_with (label_key 0) (list_key "a=b") ≡ false
unfolding format_uint format_onto digit
label_not_under = refl

zero_alone :
    (j : String)
    → starts_with j (list_key "a=b") ≡ true
    → j ≢ list_key "a=b"
    → lookup j zero_store ≡ none
unfolding lookup
zero_alone j below other = elim (==_cases (label_key 0) j) [
  | inl same ↦
      let q : starts_with j (list_key "a=b") ≡ false =
        subst (λ k. starts_with k (list_key "a=b") ≡ false) same label_not_under in
      cc
  | inr differ ↦
      rw (==_of_ne (list_key "a=b") j (λ e. other (sym e)), ==_of_ne (label_key 0) j differ) refl
]

update_etcd_label_to_identities_maps-zero_example :
    (after : Kvms (GoMap String String)) × (update_etcd_label_to_identities_maps memory 0
        (service zero_store)
      ≡ exit panicked after)
    × IsBare (memory-IsLawful.read after.etcd) (seat 0)
    × (memory-IsLawful.read after.etcd (list_key "a=b") ≡ some (marshal_ids (some zero_first)))
unfolding memory-IsLawful lookup
update_etcd_label_to_identities_maps-zero_example =
    update_etcd_label_to_identities_maps-zero memory memory-IsHealthy memory-IsLawful "a=b"
      (service zero_store) zero_first 0 zero_label refl zero_alone (omega arith, (omega arith, tt))
      (omega arith) refl

-- Identity 5 of the label `a=b` leaves, while `a=bc` has a list as well.
abbrev longer : List ℕ
longer = 7 ∷ []

abbrev two_lists : GoMap String String
two_lists = store ++ (list_key "a=bc", marshal_ids (some longer)) ∷ []

two_lists_label : lookup (label_key 5) two_lists ≡ some "a=b"
unfolding lookup format_uint format_onto digit
two_lists_label = refl

own_list : IsRemovable 5 (marshal_ids (some listed))
unfolding remove_identity remove_from swap_last
own_list = record {
  list = listed;
  parsed = unmarshal_ids-marshal_ids listed (omega arith, (omega arith, (omega arith, tt)));
  window = record { array = swapped listed 1; len = 2 };
  removed = refl;
}

longer_list : IsRemovable 5 (marshal_ids (some longer))
unfolding remove_identity remove_from
longer_list = record {
  list = longer;
  parsed = unmarshal_ids-marshal_ids longer (omega arith, tt);
  window = record { array = longer; len = 1 };
  removed = refl;
}

both_answered :
    under (list_key "a=b") (without (seat 5) two_lists)
    ≡ (list_key "a=b", marshal_ids (some listed))
      ∷ (list_key "a=bc", marshal_ids (some longer))
      ∷ []
unfolding under without format_uint format_onto digit delete
both_answered = refl

update_etcd_label_to_identities_maps-overwrites_example :
    Ensures
      (λ _ t.
        memory-IsLawful.read t.etcd (list_key "a=b")
        ≡ some (text_of 5 (marshal_ids (some longer)) longer_list))
      (update_etcd_label_to_identities_maps memory 5 (service two_lists))
unfolding memory-IsLawful
update_etcd_label_to_identities_maps-overwrites_example =
    update_etcd_label_to_identities_maps-overwrites memory memory-IsHealthy memory-IsLawful 5 "a=b"
      (service two_lists) ((list_key "a=b", marshal_ids (some listed)) ∷ []) (list_key "a=bc")
      (marshal_ids (some longer)) two_lists_label (ap ok both_answered) (own_list, tt) longer_list

-- Two calls for identity 5, which no agent has.
list_not_under : starts_with (list_key "a=b") (kvm_svc_identiti_to_pod_ips <> "5") ≡ false
list_not_under = refl

label_not_under_seat : starts_with (label_key 5) (kvm_svc_identiti_to_pod_ips <> "5") ≡ false
unfolding format_uint format_onto digit
label_not_under_seat = refl

seatless : IsBare (λ j. lookup j store) (kvm_svc_identiti_to_pod_ips <> "5")
unfolding lookup
seatless j below =
    let list_other : list_key "a=b" ≢ j = λ e.
      let q =
        subst (λ k. starts_with k (kvm_svc_identiti_to_pod_ips <> "5") ≡ false) e list_not_under in
      cc in
    let label_other : label_key 5 ≢ j = λ e.
      let q =
        subst (λ k. starts_with k (kvm_svc_identiti_to_pod_ips <> "5") ≡ false) e
          label_not_under_seat in
      cc in
    rw (==_of_ne (list_key "a=b") j list_other, ==_of_ne (label_key 5) j label_other) refl

five_MayRegister : MayRegister (λ j. lookup j store) "5"
unfolding last_of_key split format_uint format_onto digit
five_MayRegister = (
  seatless,
  record { key = label_key 5; value = "a=b"; under = refl; stored = store_label; ends = refl },
)

register_at_once-accepted_example :
    Ensures (λ r _. r ≡ (accepted, accepted)) (register_at_once memory "5" (service store))
    × Ensures (λ r _. r ≡ (accepted, refused)) (register_in_turn memory "5" (service store))
unfolding memory-IsLawful
register_at_once-accepted_example =
    register_at_once-accepted memory memory-IsHealthy memory-IsLawful "5" (service store)
      five_MayRegister
