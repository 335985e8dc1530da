-- ===== src/Types/Rules.antt =====
-- The rules of a host policy as the daemons decode them (src/types/types.go). An `int` is ℤ, and a
-- slice a list: nothing here tells a nil slice from an empty one.
use kvm_service.Prelude.{String, Bool, List}
use kvm_service.Go.Strconv.{ℤ}

pub record MatchSourceType : Type 0 where
  pub path : String
  pub directory : String
  pub recursive : Bool

pub record ProcessPathType : Type 0 where
  pub path : String
  pub owner_only : Bool
  pub from_source : List MatchSourceType
  pub severity : ℤ
  pub tags : List String
  pub message : String
  pub action : String

pub record ProcessDirectoryType : Type 0 where
  pub directory : String
  pub recursive : Bool
  pub owner_only : Bool
  pub from_source : List MatchSourceType
  pub severity : ℤ
  pub tags : List String
  pub message : String
  pub action : String

pub record ProcessPatternType : Type 0 where
  pub pattern : String
  pub owner_only : Bool
  pub severity : ℤ
  pub tags : List String
  pub message : String
  pub action : String

pub record ProcessType : Type 0 where
  pub match_paths : List ProcessPathType
  pub match_directories : List ProcessDirectoryType
  pub match_patterns : List ProcessPatternType
  pub severity : ℤ
  pub tags : List String
  pub message : String
  pub action : String

pub record FilePathType : Type 0 where
  pub path : String
  pub read_only : Bool
  pub owner_only : Bool
  pub from_source : List MatchSourceType
  pub severity : ℤ
  pub tags : List String
  pub message : String
  pub action : String

pub record FileDirectoryType : Type 0 where
  pub directory : String
  pub read_only : Bool
  pub recursive : Bool
  pub owner_only : Bool
  pub from_source : List MatchSourceType
  pub severity : ℤ
  pub tags : List String
  pub message : String
  pub action : String

pub record FilePatternType : Type 0 where
  pub pattern : String
  pub read_only : Bool
  pub owner_only : Bool
  pub severity : ℤ
  pub tags : List String
  pub message : String
  pub action : String

pub record FileType : Type 0 where
  pub match_paths : List FilePathType
  pub match_directories : List FileDirectoryType
  pub match_patterns : List FilePatternType
  pub severity : ℤ
  pub tags : List String
  pub message : String
  pub action : String

pub record NetworkProtocolType : Type 0 where
  pub protocol : String
  pub from_source : List MatchSourceType
  pub severity : ℤ
  pub tags : List String
  pub message : String
  pub action : String

pub record NetworkType : Type 0 where
  pub match_protocols : List NetworkProtocolType
  pub severity : ℤ
  pub tags : List String
  pub message : String
  pub action : String

pub record CapabilitiesCapabilityType : Type 0 where
  pub capability : String
  pub from_source : List MatchSourceType
  pub severity : ℤ
  pub tags : List String
  pub message : String
  pub action : String

pub record CapabilitiesType : Type 0 where
  pub match_capabilities : List CapabilitiesCapabilityType
  pub severity : ℤ
  pub tags : List String
  pub message : String
  pub action : String
