-- ===== src/Tests/ClusterRuns.antt =====
-- Runs of the handler of the Kubernetes API (src/operator/core/k8sHandler.go).
use kvm_service.Prelude.{ℕ, String, [], ◌∷◌, none, some, true, false, ◌≡◌, ◌↔◌, string_eq}
use kvm_service.Go.Outcome.{ok, err}
use kvm_service.Common.Environment.{Environment}
use kvm_service.K8s.Handler.{K8sHandler, Platform, request_of, check_custom_resource_definition}
use kvm_service.K8s.Requests.{IsDiscreet, request_of-IsDiscreet}
use kvm_service.K8s.Requests.Served.{IsServed, check_custom_resource_definition_iff}

-- A process in a cluster.
abbrev pub in_cluster : Environment
in_cluster = record { lookup_env = λ key. some "x"; exists = λ path. false }

-- A server that lists the group and one resource; the state counts the requests.
abbrev pub server : Platform ℕ String
server = record {
  read_file = λ path. ok "token";
  build_config = λ path. err "no file";
  new_for_config = λ config. err "no configuration";
  new_for_token = λ host token. ok tt;
  request_error = λ method url. none;
  perform = λ request n. (ok (ok "body"), 1);
  start_watch = λ request n. (ok "stream", n);
  api_groups = λ body. ok (
      record { name = "security.kubearmor.com"; group_version = "security.kubearmor.com/v1" } ∷ []);
  api_resources = λ body. ok ("kubearmorhostpolicies" ∷ []);
}

abbrev pub handler : K8sHandler
handler = record {
  k8s_client = false;
  k8s_token = "token";
  k8s_host = "10.96.0.1";
  k8s_port = "443";
}

request_of-IsDiscreet_example :
    IsDiscreet (request_of server in_cluster handler "GET" "null" "/apis")
request_of-IsDiscreet_example = request_of-IsDiscreet server in_cluster handler "GET" "null" "/apis"

check_custom_resource_definition_iff_example :
    ((check_custom_resource_definition server in_cluster handler "kubearmorhostpolicies" 0).0
      ≡ true)
    ↔ IsServed server in_cluster handler "kubearmorhostpolicies" 0
check_custom_resource_definition_iff_example =
    check_custom_resource_definition_iff server in_cluster handler "kubearmorhostpolicies" 0
