-- ===== src/Types/Events.antt =====
-- Host policies and their watch events (src/types/types.go). A Go map may be nil, which is none.
use kvm_service.Prelude.{String, Bool, List, ℕ, Option, GoMap}
use kvm_service.Go.Strconv.{ℤ}
use kvm_service.Types.Meta.{ObjectMeta}
use kvm_service.Types.Rules.{ProcessType, FileType, NetworkType, CapabilitiesType}

pub record NodeSelectorType : Type 0 where
  pub match_labels : Option (GoMap String String)
  pub identities : List String

pub record HostSecuritySpec : Type 0 where
  pub node_selector : NodeSelectorType
  pub process : ProcessType
  pub file : FileType
  pub network : NetworkType
  pub capabilities : CapabilitiesType
  pub app_armor : String
  pub severity : ℤ
  pub tags : List String
  pub message : String
  pub action : String

pub record HostSecurityPolicy : Type 0 where
  pub metadata : Option (GoMap String String)
  pub spec : HostSecuritySpec

pub record K8sPolicyStatus : Type 0 where
  pub status : String

pub record K8sKubeArmorHostPolicy : Type 0 where
  pub metadata : ObjectMeta
  pub spec : HostSecuritySpec
  pub status : K8sPolicyStatus

pub record K8sKubeArmorHostPolicyEvent : Type 0 where
  pub type : String
  pub object : K8sKubeArmorHostPolicy

pub record K8sKubeArmorHostPolicyEventWithIdentity : Type 0 where
  pub event : K8sKubeArmorHostPolicyEvent
  pub identity : ℕ
  pub close_connection : Bool
