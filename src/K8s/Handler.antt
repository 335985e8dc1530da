-- ===== src/K8s/Handler.antt =====
-- The handler of the Kubernetes API: its client and its requests. The HTTP client, the client library
-- of Kubernetes and the decoders are the parameter Platform; the environment does not change.
use kvm_service.Prelude.{
  String, List, [], ◌∷◌, Option, none, some, Bool, true, false, ◌<>◌, ◌==◌, string_eq, not,
  if◌then◌else◌, contains,
}
use kvm_service.Constants.{local_host_ip_address, kube_proxy_k8s_port, kew_crd_name, khp_crd_name}
use kvm_service.Go.Outcome.{Result, ok, err}
use kvm_service.Common.Environment.{
  Environment, getenv, is_k8s_env, is_in_k8s_cluster, is_k8s_local,
}

pub record K8sHandler : Type 0 where
  -- whether `K8sClient` is set
  pub k8s_client : Bool
  pub k8s_token : String
  pub k8s_host : String
  pub k8s_port : String

pub record HttpRequest : Type 0 where
  pub method : String
  pub url : String
  pub headers : List (String × String)
  pub body : String

-- A group of the API: its name and the version that it prefers.
pub record ApiGroup : Type 0 where
  pub name : String
  pub group_version : String

-- The libraries that the handler calls, with the state H of the API server and a response R.
pub record Platform (H R : Type 0) : Type 0 where
  -- `ioutil.ReadFile`
  pub read_file : String → Result String
  -- `clientcmd.BuildConfigFromFlags` at a clean path, none for the empty one, and the client for it
  pub build_config : Option String → Result String
  pub new_for_config : String → Result (Unit {0})
  -- `kubernetes.NewForConfig` with a host and a token
  pub new_for_token : String → String → Result (Unit {0})
  -- `http.NewRequest` at a method and a URL: its error
  pub request_error : String → String → Option String
  -- `Do` of the HTTP client, and what reading the body then gives
  pub perform : HttpRequest → H → Result (Result String) × H
  -- `Do` of the watch client, or `http.Get`
  pub start_watch : HttpRequest → H → Result R × H
  -- `json.Unmarshal` at an APIGroupList, and at an APIResourceList: the names of its resources
  pub api_groups : String → Result (List ApiGroup)
  pub api_resources : String → Result (List String)

abbrev or_default : Option String → String → String
or_default none default = default
or_default (some val) default = val

unfoldable pub new_k8s_handler : Environment → K8sHandler
new_k8s_handler env = record {
  k8s_client = false;
  k8s_token = "";
  k8s_host = or_default (env.lookup_env "KUBERNETES_SERVICE_HOST") local_host_ip_address;
  k8s_port = or_default (env.lookup_env "KUBERNETES_PORT_443_TCP_PORT") kube_proxy_k8s_port;
}

-- The path of the configuration under the home directory.
abbrev pub kubeconfig : String → Option String
kubeconfig home = if home == "" then none else some (home <> "/.kube/config")

abbrev pub host_and_port : K8sHandler → String
host_and_port kh = kh.k8s_host <> ":" <> kh.k8s_port

abbrev pub token_file : String
token_file = "/var/run/secrets/kubernetes.io/serviceaccount/token"

-- The first group of the name.
unfoldable pub find_group : List ApiGroup → Option ApiGroup
find_group [] = none
find_group (group ∷ groups) =
    let later = find_group groups in
    if group.name == "security.kubearmor.com" then some group else later

module _ {H R : Type 0} (p : Platform H R) (env : Environment) where
  unfoldable pub init_local_api_client : K8sHandler → Bool × K8sHandler
  init_local_api_client kh = elim (p.build_config (kubeconfig (getenv env "HOME"))) [
    | err m ↦ (false, kh)
    | ok config ↦ elim (p.new_for_config config) [
      | err m ↦ (false, kh)
      | ok _ ↦ (true, record kh { k8s_client = true })
    ]
  ]

  -- The token stays in the handler when the client cannot be made.
  unfoldable pub init_incluster_api_client : K8sHandler → Bool × K8sHandler
  init_incluster_api_client kh = elim (p.read_file token_file) [
    | err m ↦ (false, kh)
    | ok token ↦
        let kh' = record kh { k8s_token = token } in
        elim (p.new_for_token ("https://" <> host_and_port kh') token) [
          | err m ↦ (false, kh')
          | ok _ ↦ (true, record kh' { k8s_client = true })
        ]
  ]

  unfoldable pub init_k8s_client : K8sHandler → Bool × K8sHandler
  init_k8s_client kh =
      if not (is_k8s_env env)
      then (false, kh)
      else if kh.k8s_client
      then (true, kh)
      else if is_in_k8s_cluster env
      then init_incluster_api_client kh
      else if is_k8s_local env
      then init_local_api_client kh
      else (false, kh)

  -- The request of DoRequest and of the watch, at a method, a body and a path.
  unfoldable pub request_of : K8sHandler → String → String → String → HttpRequest
  request_of kh cmd body path =
      if is_in_k8s_cluster env
      then record {
        method = cmd;
        url = "https://" <> host_and_port kh <> path;
        headers =
            ("Content-Type", "application/json")
            ∷ ("Authorization", "Bearer " <> kh.k8s_token)
            ∷ [];
        body = body;
      }
      else record {
        method = cmd;
        url = "http://" <> host_and_port kh <> path;
        headers = [];
        body = body;
      }

  -- `content` is what `json.Marshal` gives for the data.
  unfoldable pub do_request : K8sHandler → String → Result String → String → H → Result String × H
  do_request kh cmd content path h = elim content [
    | err m ↦ (err m, h)
    | ok body ↦
        let request = request_of kh cmd body path in
        elim (p.request_error cmd request.url) [
          | some m ↦ (err m, h)
          | none ↦
              let (answer, h') = p.perform request h in
              elim answer [ err m ↦ (err m, h') | ok read ↦ (read, h') ]
        ]
  ]

  -- The group, where the list of groups can be read and has it.
  unfoldable pub group_in : Result String → Option ApiGroup
  group_in (err m) = none
  group_in (ok body) = elim (p.api_groups body) [ err m ↦ none | ok groups ↦ find_group groups ]

  -- Whether the list of resources can be read and has the name.
  unfoldable pub resource_in : String → Result String → Bool
  resource_in name (err m) = false
  resource_in name (ok body) = elim (p.api_resources body) [
    | err m ↦ false
    | ok resources ↦ contains resources name
  ]

  unfoldable pub check_custom_resource_definition : K8sHandler → String → H → Bool × H
  check_custom_resource_definition kh resource_name h =
      if not (is_k8s_env env)
      then (false, h)
      else let (body, h1) = do_request kh "GET" (ok "null") "/apis" h in
        elim (group_in body) [
          | none ↦ (false, h1)
          | some group ↦
              let (body', h2) =
                do_request kh "GET" (ok "null") ("/apis/" <> group.group_version) h1 in
              (resource_in resource_name body', h2)
        ]

  -- The watch of a resource; none is a nil response. Outside of a cluster `http.Get` makes the request.
  unfoldable pub watch_resource : String → K8sHandler → H → Option R × H
  watch_resource name kh h =
      if not (is_k8s_env env)
      then (none, h)
      else let request =
          request_of kh "GET" "" ("/apis/security.kubearmor.com/v1/" <> name <> "?watch=true") in
        elim (p.request_error "GET" request.url) [
          | some m ↦ (none, h)
          | none ↦
              let (answer, h') = p.start_watch request h in
              elim answer [ err m ↦ (none, h') | ok response ↦ (some response, h') ]
        ]

  unfoldable pub watch_k8s_external_workload_security_policies : K8sHandler → H → Option R × H
  watch_k8s_external_workload_security_policies = watch_resource kew_crd_name

  unfoldable pub watch_k8s_host_security_policies : K8sHandler → H → Option R × H
  watch_k8s_host_security_policies = watch_resource khp_crd_name
