-- ===== src/Tests/ServiceRuns.antt =====
-- Runs of the service (src/service) on a store in memory.
use kvm_service.Prelude.{
  ℕ, zero, suc, ◌<◌, String, List, [], ◌∷◌, none, some, true, false, ◌≡◌, ◌≢◌, refl, sym, subst,
  inl, inr, ◌⊎◌, GoMap, lookup, get_or, starts_with, ==_cases, ==_of_ne, nat_eq, string_eq, arith,
}
use kvm_service.Go.Strconv.{format_uint, format_onto, digit}
use kvm_service.Go.Outcome.{done, exit, panicked, Ensures}
use kvm_service.Go.Json.{marshal_ids}
use kvm_service.Etcd.Memory.{memory, memory-IsLawful, memory-IsHealthy}
use kvm_service.Service.Sends.{IsReceived}
use kvm_service.Service.State.{Kvms, made}
use kvm_service.Service.Server.{
  refused, register_agent_identity, update_etcd_label_to_identities_maps,
}
use kvm_service.Service.Server.Reads.{IsBare}
use kvm_service.Service.Server.Registration.{
  MayRegister, IsAccepted, register_agent_identity-decides,
}
use kvm_service.Service.Server.Departure.{seat, label_key, list_key}
use kvm_service.Service.Server.Departure.Leaving.{
  HasLeft, update_etcd_label_to_identities_maps-HasLeft,
  update_etcd_label_to_identities_maps-panics,
}

abbrev pub listed : List ℕ
listed = 3 ∷ 5 ∷ 9 ∷ []

-- A service over a store.
abbrev pub service : GoMap String String → Kvms (GoMap String String)
service etcd = record {
  etcd = etcd;
  etcd_client = record { lease_response = 7 };
  server = record { pod_ip = "10.0.0.1"; clusterport = "32767"; cluster_ip = "10.0.0.2" };
  etcd_ew_labels = some [];
  map_label_to_identities = [];
  cluster_port = 32767;
  clusterip_address = "10.0.0.2";
  gen_script = record { p = record { port = 32767; ip_address = "10.0.0.2" }; script_data = "" };
  policy_chan = made (λ _. true);
  sent = [];
}

-- The label of identity 5, and the list of the label.
abbrev pub store : GoMap String String
store = (list_key "a=b", marshal_ids (some listed)) ∷ (label_key 5, "a=b") ∷ []

register_agent_identity-decides_example :
    (MayRegister (memory-IsLawful.read store) "5"
      × IsAccepted memory memory-IsLawful.read "5" (service store))
    ⊎ ((MayRegister (memory-IsLawful.read store) "5" → ⊥)
        × (register_agent_identity memory "5" (service store)
            ≡ done (refused, none) (service store)))
register_agent_identity-decides_example =
    register_agent_identity-decides memory memory-IsHealthy memory-IsLawful "5" (service store)

pub only_second : (k : ℕ) → k < 3 → k ≢ 1 → get_or listed k 0 ≢ 5
only_second zero h n e = absurd (omega arith)
only_second (suc zero) h n e = absurd (omega arith)
only_second (suc (suc zero)) h n e = absurd (omega arith)
only_second (suc (suc (suc k))) h n e = absurd (omega arith)

pub store_label : lookup (label_key 5) store ≡ some "a=b"
unfolding lookup format_uint format_onto digit
store_label = refl

pub store_list : lookup (list_key "a=b") store ≡ some (marshal_ids (some listed))
unfolding lookup
store_list = refl

label_not_under : starts_with (label_key 5) (list_key "a=b") ≡ false
unfolding format_uint format_onto digit
label_not_under = refl

pub store_alone :
    (j : String)
    → starts_with j (list_key "a=b") ≡ true
    → j ≢ list_key "a=b"
    → lookup j store ≡ none
unfolding lookup
store_alone j under other = elim (==_cases (label_key 5) j) [
  | inl same ↦
      let q : starts_with j (list_key "a=b") ≡ false =
        subst (λ k. starts_with k (list_key "a=b") ≡ false) same label_not_under in
      cc
  | inr differ ↦
      rw (==_of_ne (list_key "a=b") j (λ e. other (sym e)), ==_of_ne (label_key 5) j differ) refl
]

update_etcd_label_to_identities_maps-HasLeft_example :
    Ensures
      (λ _ s'. HasLeft (memory-IsLawful.read store) (memory-IsLawful.read s'.etcd) 5 "a=b" listed)
      (update_etcd_label_to_identities_maps memory 5 (service store))
unfolding memory-IsLawful
update_etcd_label_to_identities_maps-HasLeft_example =
    update_etcd_label_to_identities_maps-HasLeft memory memory-IsHealthy memory-IsLawful 5 "a=b"
      (service store) listed 1 store_label store_list store_alone
      (omega arith, (omega arith, (omega arith, tt))) (λ e. absurd (omega arith)) (omega arith) refl
      only_second

-- The label's list is missing.
abbrev unlisted : GoMap String String
unlisted = (label_key 5, "a=b") ∷ []

unlisted_label : lookup (label_key 5) unlisted ≡ some "a=b"
unfolding lookup format_uint format_onto digit
unlisted_label = refl

unlisted-IsBare : IsBare (λ j. lookup j unlisted) (list_key "a=b")
unfolding lookup
unlisted-IsBare j under = elim (==_cases (label_key 5) j) [
  | inl same ↦
      let q : starts_with j (list_key "a=b") ≡ false =
        subst (λ k. starts_with k (list_key "a=b") ≡ false) same label_not_under in
      cc
  | inr differ ↦ rw (==_of_ne (label_key 5) j differ) refl
]

update_etcd_label_to_identities_maps-panics_example :
    (after : Kvms (GoMap String String)) × (update_etcd_label_to_identities_maps memory 5
        (service unlisted)
      ≡ exit panicked after)
    × IsBare (memory-IsLawful.read after.etcd) (seat 5)
unfolding memory-IsLawful
update_etcd_label_to_identities_maps-panics_example =
    update_etcd_label_to_identities_maps-panics memory memory-IsHealthy memory-IsLawful 5 "a=b"
      (service unlisted) unlisted_label unlisted-IsBare

-- Some stream receives every message.
pub all-IsReceived : IsReceived (made (λ _. true))
all-IsReceived = record { receives = λ _. true; is_made = refl; all = λ n. refl }
