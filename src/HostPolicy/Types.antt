-- ===== src/HostPolicy/Types.antt =====
-- The KubeArmorHostPolicy resource (pkg/KubeArmorHostPolicy/api/v1/kubearmorhostpolicy_types.go).
-- The string types that the API server checks against patterns are texts; of the inlined
-- Kubernetes metadata only the object's is kept.
use kvm_service.Prelude.{String, Bool, List, Option, GoMap}
use kvm_service.Go.Strconv.{ℤ}
use kvm_service.Types.Meta.{ObjectMeta}

pub record NodeSelectorType : Type 0 where
  pub match_labels : Option (GoMap String String)

pub record MatchSourceType : Type 0 where
  pub path : String
  pub directory : String
  pub recursive : Bool

pub record ProcessPathType : Type 0 where
  pub path : String
  pub owner_only : Bool
  pub from_source : List MatchSourceType
  pub severity : ℤ
  pub tags : List String
  pub message : String
  pub action : String

pub record ProcessDirectoryType : Type 0 where
  pub directory : String
  pub recursive : Bool
  pub owner_only : Bool
  pub from_source : List MatchSourceType
  pub severity : ℤ
  pub tags : List String
  pub message : String
  pub action : String

pub record ProcessPatternType : Type 0 where
  pub pattern : String
  pub owner_only : Bool
  pub severity : ℤ
  pub tags : List String
  pub message : String
  pub action : String

pub record ProcessType : Type 0 where
  pub match_paths : List ProcessPathType
  pub match_directories : List ProcessDirectoryType
  pub match_patterns : List ProcessPatternType
  pub severity : ℤ
  pub tags : List String
  pub message : String
  pub action : String

pub record FilePathType : Type 0 where
  pub path : String
  pub read_only : Bool
  pub owner_only : Bool
  pub from_source : List MatchSourceType
  pub severity : ℤ
  pub tags : List String
  pub message : String
  pub action : String

pub record FileDirectoryType : Type 0 where
  pub directory : String
  pub recursive : Bool
  pub read_only : Bool
  pub owner_only : Bool
  pub from_source : List MatchSourceType
  pub severity : ℤ
  pub tags : List String
  pub message : String
  pub action : String

pub record FilePatternType : Type 0 where
  pub pattern : String
  pub read_only : Bool
  pub owner_only : Bool
  pub severity : ℤ
  pub tags : List String
  pub message : String
  pub action : String

pub record FileType : Type 0 where
  pub match_paths : List FilePathType
  pub match_directories : List FileDirectoryType
  pub match_patterns : List FilePatternType
  pub severity : ℤ
  pub tags : List String
  pub message : String
  pub action : String

pub record MatchNetworkProtocolType : Type 0 where
  pub protocol : String
  pub from_source : List MatchSourceType
  pub severity : ℤ
  pub tags : List String
  pub message : String
  pub action : String

pub record NetworkType : Type 0 where
  pub match_protocols : List MatchNetworkProtocolType
  pub severity : ℤ
  pub tags : List String
  pub message : String
  pub action : String

pub record MatchCapabilitiesType : Type 0 where
  pub capability : String
  pub from_source : List MatchSourceType
  pub severity : ℤ
  pub tags : List String
  pub message : String
  pub action : String

pub record CapabilitiesType : Type 0 where
  pub match_capabilities : List MatchCapabilitiesType
  pub severity : ℤ
  pub tags : List String
  pub message : String
  pub action : String

pub record KubeArmorHostPolicySpec : Type 0 where
  pub node_selector : NodeSelectorType
  pub process : ProcessType
  pub file : FileType
  pub network : NetworkType
  pub capabilities : CapabilitiesType
  pub app_armor : String
  pub severity : ℤ
  pub tags : List String
  pub message : String
  pub action : String

pub record KubeArmorHostPolicyStatus : Type 0 where
  pub policy_status : String

pub record KubeArmorHostPolicy : Type 0 where
  pub object_meta : ObjectMeta
  pub spec : KubeArmorHostPolicySpec
  pub status : KubeArmorHostPolicyStatus
