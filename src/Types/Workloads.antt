-- ===== src/Types/Workloads.antt =====
-- External workloads and their watch events (src/types/types.go).
use kvm_service.Prelude.{String, ℕ}
use kvm_service.Types.Meta.{ObjectMeta}
use kvm_service.Types.Events.{NodeSelectorType}

pub record ExternalWorkloadSecuritySpec : Type 0 where
  pub ipv4_alloc_cidr : String
  pub ipv6_alloc_cidr : String

pub record ExternalWorkloadMetadata : Type 0 where
  pub node_selector : NodeSelectorType
  pub name : String

pub record ExternalWorkloadSecurityPolicy : Type 0 where
  pub metadata : ExternalWorkloadMetadata

pub record K8sKubeArmorExternalWorkloadPolicyStatus : Type 0 where
  pub id : ℕ
  pub ip : String
  pub status : String

pub record K8sKubeArmorExternalWorkloadPolicy : Type 0 where
  pub metadata : ObjectMeta
  pub spec : ExternalWorkloadSecuritySpec
  pub status : K8sKubeArmorExternalWorkloadPolicyStatus

pub record K8sKubeArmorExternalWorkloadPolicyEvent : Type 0 where
  pub type : String
  pub object : K8sKubeArmorExternalWorkloadPolicy
