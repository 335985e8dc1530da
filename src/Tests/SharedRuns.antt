-- ===== src/Tests/SharedRuns.antt =====
-- Runs of the operator and the service on one store in memory.
use kvm_service.Prelude.{
  true, ℕ, suc, String, [], ◌∷◌, some, ◌≡◌, ◌≢◌, refl, ◌⊎◌, GoMap, lookup, ◌<>◌, arith,
}
use kvm_service.Constants.{kvm_opr_ewname_to_identity}
use kvm_service.Go.Outcome.{Ensures}
use kvm_service.Go.Strconv.{format_uint}
use kvm_service.Etcd.Memory.{memory, memory-IsLawful, memory-IsHealthy}
use kvm_service.Operator.State.{Operator}
use kvm_service.Operator.Identities.{is_free, generate_external_workload_identity}
use kvm_service.Service.State.{Kvms, made}
use kvm_service.Service.Server.{handle_cli_request}
use kvm_service.Service.Server.Cli.{
  script_reply, unknown_reply, identity_of, handle_cli_request-answers, generate-handle_cli_request,
}

-- The identity 5 is taken.
abbrev operator : Operator (GoMap String String)
operator = record {
  etcd = [];
  etcd_client = record { lease_response = 7 };
  external_workload_security_policies = [];
  map_identity_to_ewname = (5, "vm") ∷ [];
  map_ewname_to_identity = ("vm", 5) ∷ [];
  map_identity_to_label = [];
  map_label_to_identities = [];
  drawn = 0;
}

abbrev service : Kvms (GoMap String String)
service = record {
  etcd = (kvm_opr_ewname_to_identity <> "vm", "5") ∷ [];
  etcd_client = record { lease_response = 8 };
  server = record { pod_ip = "10.0.0.1"; clusterport = "32767"; cluster_ip = "10.0.0.2" };
  etcd_ew_labels = some [];
  map_label_to_identities = [];
  cluster_port = 32767;
  clusterip_address = "10.0.0.2";
  gen_script = record { p = record { port = 32767; ip_address = "10.0.0.2" }; script_data = "" };
  policy_chan = made (λ _. true);
  sent = [];
}

-- The numbers 5, 6, 7, … are drawn.
abbrev counting : ℕ → ℕ
counting n = suc (suc (suc (suc (suc n))))

generate-handle_cli_request_example :
    Ensures
      (λ identity o'.
        handle_cli_request memory "db" (record service { etcd = o'.etcd })
        ≡ script_reply "db" (format_uint identity) (record service { etcd = o'.etcd }))
      (generate_external_workload_identity memory counting 2 "db" operator)
unfolding is_free lookup
generate-handle_cli_request_example =
    generate-handle_cli_request memory memory-IsHealthy memory-IsLawful counting 2 1 "db" operator
      service (omega arith) refl

handle_cli_request-answers_example :
    ((identity_of (memory-IsLawful.read service.etcd) "vm" ≢ "")
      × (handle_cli_request memory "vm" service
          ≡ script_reply "vm" (identity_of (memory-IsLawful.read service.etcd) "vm") service))
    ⊎ ((identity_of (memory-IsLawful.read service.etcd) "vm" ≡ "")
        × (handle_cli_request memory "vm" service ≡ unknown_reply service))
handle_cli_request-answers_example =
    handle_cli_request-answers memory memory-IsHealthy memory-IsLawful "vm" service
