-- ===== src/Tests/DaemonRuns.antt =====
-- Runs of the daemons (src/operator/core) from their start, with a store in memory and an API server
-- that answers every watch with the same events.
use kvm_service.Prelude.{
  ℕ, String, List, [], ◌∷◌, none, some, false, ◌≡◌, refl, sym, subst, inl, GoMap, lookup, contains,
  string_eq,
}
use kvm_service.Go.Outcome.{Returns, ok, err}
use kvm_service.Common.Environment.{Environment, is_k8s_env, is_k8s_local, is_in_k8s_cluster}
use kvm_service.Types.Workloads.{K8sKubeArmorExternalWorkloadPolicyEvent}
use kvm_service.Etcd.Memory.{memory}
use kvm_service.Etcd.Client.{new_etcd_client}
use kvm_service.K8s.Handler.{
  K8sHandler, Platform, check_custom_resource_definition, do_request, group_in, find_group,
  resource_in, watch_resource, watch_k8s_external_workload_security_policies,
}
use kvm_service.K8s.Watch.{first_events, round_events}
use kvm_service.Operator.State.{Operator, new_kvms_operator_daemon}
use kvm_service.Operator.Events.{handle_events}
use kvm_service.Operator.Catalog.{IsStream, catalog_after, replay}
use kvm_service.Operator.Catalog.Refinement.{Represents, handle_events-Represents}
use kvm_service.Operator.Daemon.{watch_external_workload_security_policies}
use kvm_service.Operator.Daemon.Watched.{
  nothing, watched, new_kvms_operator_daemon-Represents,
  watch_external_workload_security_policies-Represents,
}
use kvm_service.Operator.Events.Inverse.{is_some}

abbrev in_cluster : Environment
in_cluster = record { lookup_env = λ key. some "x"; exists = λ path. false }

abbrev server : Platform ℕ String
server = record {
  read_file = λ path. ok "token";
  build_config = λ path. err "no file";
  new_for_config = λ config. err "no configuration";
  new_for_token = λ host token. ok tt;
  request_error = λ method url. none;
  perform = λ request n. (ok (ok "body"), 1);
  start_watch = λ request n. (ok "stream", n);
  api_groups = λ body. ok (
      record { name = "security.kubearmor.com"; group_version = "security.kubearmor.com/v1" } ∷ []);
  api_resources = λ body. ok ("kubearmorexternalworkloads" ∷ []);
}

abbrev handler : K8sHandler
handler = record { k8s_client = false; k8s_token = ""; k8s_host = "10.96.0.1"; k8s_port = "443" }

abbrev event_of : String → String → K8sKubeArmorExternalWorkloadPolicyEvent
event_of type value = record {
  type = type;
  object = record {
    metadata = record { name = "vm"; labels = some (("a", value) ∷ []) };
    spec = record { ipv4_alloc_cidr = ""; ipv6_alloc_cidr = "" };
    status = record { id = 0; ip = ""; status = "" };
  };
}

-- A workload comes, changes its label and goes.
abbrev life : List K8sKubeArmorExternalWorkloadPolicyEvent
life = event_of "ADDED" "b" ∷ event_of "MODIFIED" "c" ∷ event_of "DELETED" "c" ∷ []

abbrev counting : ℕ → ℕ
counting n = n

abbrev started : Operator (GoMap String String)
started = record {
  etcd = [];
  etcd_client = record { lease_response = 7 };
  external_workload_security_policies = [];
  map_identity_to_ewname = [];
  map_ewname_to_identity = [];
  map_identity_to_label = [];
  map_label_to_identities = [];
  drawn = 0;
}

life-IsStream : IsStream life nothing
unfolding catalog_after
life-IsStream = (λ _. inl ((λ e. cc), refl), ((λ e. cc), ((λ e. cc), tt)))

watched-life : watched server in_cluster (λ r. life) handler 1 0 ≡ life
unfolding first_events round_events check_custom_resource_definition do_request group_in find_group
    resource_in watch_resource watch_k8s_external_workload_security_policies is_k8s_env is_k8s_local
    is_in_k8s_cluster contains
watched-life = refl

watch_external_workload_security_policies-Represents_example :
    Returns
      (λ _ w.
        Represents (replay (watched server in_cluster (λ r. life) handler 1 0) nothing) w.daemon
        × ((n : String)
            → is_some (lookup n w.daemon.map_ewname_to_identity)
              ≡ is_some (replay (watched server in_cluster (λ r. life) handler 1 0) nothing n)))
      (watch_external_workload_security_policies memory server in_cluster
        (λ r. life)
        counting
        5
        handler
        1
        (record { daemon = started; api = 0 }))
unfolding new_kvms_operator_daemon new_etcd_client
watch_external_workload_security_policies-Represents_example =
    watch_external_workload_security_policies-Represents memory server in_cluster (λ r. life)
      counting 5 "http://etcd:2379" handler 1 0 [] started refl
      (subst (λ l. IsStream l nothing) (sym watched-life) life-IsStream)

handle_events-Represents_example :
    Returns
      (λ _ t. Represents (replay life nothing) t)
      (handle_events memory counting 5 life started)
unfolding new_kvms_operator_daemon new_etcd_client
handle_events-Represents_example =
    handle_events-Represents memory counting 5 life nothing started
      (new_kvms_operator_daemon-Represents memory "http://etcd:2379" [] started refl) life-IsStream
