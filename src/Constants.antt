-- ===== src/Constants.antt =====
-- src/constants/constants.go: the key prefixes of the shared store and the names of resources.
use kvm_service.Prelude.{ℕ, String}

abbrev pub kvm_opr_identity_to_ewname : String
kvm_opr_identity_to_ewname = "/kvm-opr-map-identity-to-ewname/"

abbrev pub kvm_opr_ewname_to_identity : String
kvm_opr_ewname_to_identity = "/kvm-opr-map-ewname-to-identity/"

abbrev pub kvm_opr_label_to_identities : String
kvm_opr_label_to_identities = "/kvm-opr-label-to-identities-map/"

abbrev pub kvm_svc_identiti_to_pod_ips : String
kvm_svc_identiti_to_pod_ips = "/kvm-svc-identity-podip-maps/"

abbrev pub kvm_opr_identity_to_label : String
kvm_opr_identity_to_label = "/kvm-opr-identity-to-label-maps/"

abbrev pub khp_crd_name : String
khp_crd_name = "kubearmorhostpolicies"

abbrev pub kew_crd_name : String
kew_crd_name = "kubearmorexternalworkloads"

abbrev pub local_host_ip_address : String
local_host_ip_address = "127.0.0.1"

abbrev pub kube_proxy_k8s_port : String
kube_proxy_k8s_port = "8001"

abbrev pub etcd_client_ttl : ℕ
etcd_client_ttl = 10

abbrev pub etcd_service_account_name : String
etcd_service_account_name = "etcd0"

abbrev pub kvm_service_account_name : String
kvm_service_account_name = "kvmservice"
