-- ===== src/HostPolicy/Schema.antt =====
-- The four checks of a host policy
-- (pkg/KubeArmorHostPolicy/controllers/kubearmorhostpolicy_controller.go). An error is the text of
-- its format; the name of the object that the format adds is left out.
pub mod Laws
use kvm_service.Prelude.{
  String, List, [], ◌∷◌, Option, none, some, Bool, true, false, ◌||◌, ◌&&◌, not, ◌==◌, string_eq,
  if◌then◌else◌,
}
use kvm_service.HostPolicy.Types.{
  MatchSourceType, ProcessPathType, ProcessDirectoryType, ProcessPatternType, FilePathType,
  FileDirectoryType, FilePatternType, MatchNetworkProtocolType, MatchCapabilitiesType,
  KubeArmorHostPolicySpec,
}

pub data PolicyError : Type 0 where
  -- "ownerOnly works with the Allow action"
  owner_only_without_allow : PolicyError
  -- "recursive is only effective with directories, not paths"
  recursive_with_path : PolicyError

-- One block of checks before the next.
abbrev pub and_then : Option PolicyError → Option PolicyError → Option PolicyError
and_then none next = next
and_then (some e) next = some e

-- The first error of a loop whose body may return one.
unfoldable pub first_error {ℓ} :
    {A : Type ℓ} → (A → Option PolicyError) → List A → Option PolicyError
first_error body [] = none
first_error body (x ∷ xs) = and_then (body x) (first_error body xs)

-- `if policy.Spec.Action != "Allow" { if m.OwnerOnly { … } }`
abbrev pub check_owner : String → Bool → Option PolicyError
check_owner action owner_only =
    if not (action == "Allow")
    then if owner_only then some owner_only_without_allow else none
    else none

-- `if fromSource.Path != "" { if fromSource.Recursive || !fromSource.Recursive { … } }`
abbrev pub check_source_any : MatchSourceType → Option PolicyError
check_source_any from_source =
    if not (from_source.path == "")
    then if from_source.recursive || not from_source.recursive
      then some recursive_with_path
      else none
    else none

-- `if fromSource.Path != "" { if fromSource.Recursive { … } }`
abbrev pub check_source : MatchSourceType → Option PolicyError
check_source from_source =
    if not (from_source.path == "")
    then if from_source.recursive then some recursive_with_path else none
    else none

unfoldable pub validate_process_schema : KubeArmorHostPolicySpec → Option PolicyError
validate_process_schema spec =
    and_then
      (first_error
        (λ m.
          and_then (check_owner spec.action m.owner_only)
            (first_error check_source_any m.from_source))
        spec.process.match_paths)
      (and_then
        (first_error (λ m. check_owner spec.action m.owner_only) spec.process.match_directories)
        (first_error (λ m. check_owner spec.action m.owner_only) spec.process.match_patterns))

unfoldable pub validate_file_schema : KubeArmorHostPolicySpec → Option PolicyError
validate_file_schema spec =
    and_then
      (first_error
        (λ m.
          and_then (check_owner spec.action m.owner_only) (first_error check_source m.from_source))
        spec.file.match_paths)
      (and_then
        (first_error (λ m. check_owner spec.action m.owner_only) spec.file.match_directories)
        (first_error (λ m. check_owner spec.action m.owner_only) spec.file.match_patterns))

unfoldable pub validate_network_schema : KubeArmorHostPolicySpec → Option PolicyError
validate_network_schema spec =
    first_error (λ m. first_error check_source_any m.from_source) spec.network.match_protocols

unfoldable pub validate_capabilities_schema : KubeArmorHostPolicySpec → Option PolicyError
validate_capabilities_schema spec =
    first_error (λ m. first_error check_source_any m.from_source)
      spec.capabilities.match_capabilities
