-- ===== src/HostPolicy/Schema/Laws.antt =====
-- What a policy that passes the checks is.
use kvm_service.Prelude.{
  String, List, [], ◌∷◌, Option, none, some, Bool, true, false, ◌≡◌, ◌≢◌, ◌↔◌, refl, All, string_eq,
  arith,
}
use text.Mathlib.TextEquality.{eq_iff}
use kvm_service.HostPolicy.Types.{MatchSourceType, KubeArmorHostPolicySpec}
use kvm_service.HostPolicy.Schema.{
  PolicyError, first_error, and_then, check_owner, check_source, check_source_any,
  validate_process_schema, validate_file_schema, validate_network_schema,
  validate_capabilities_schema,
}

-- A rule for the owner only stands in a policy that allows.
abbrev pub OwnerFits : String → Bool → Type 0
OwnerFits action owner_only = owner_only ≡ true → action ≡ "Allow"

-- A source that is a path is not recursive.
abbrev pub SourceFits : MatchSourceType → Type 0
SourceFits m = m.path ≢ "" → m.recursive ≡ false

-- A source is no path at all.
abbrev pub SourceIsNoPath : MatchSourceType → Type 0
SourceIsNoPath m = m.path ≡ ""

pub record IsProcessValid (spec : KubeArmorHostPolicySpec) : Type 0 where
  pub paths :
      All
        (λ m. OwnerFits spec.action m.owner_only × All SourceIsNoPath m.from_source)
        spec.process.match_paths
  pub directories : All (λ m. OwnerFits spec.action m.owner_only) spec.process.match_directories
  pub patterns : All (λ m. OwnerFits spec.action m.owner_only) spec.process.match_patterns

pub record IsFileValid (spec : KubeArmorHostPolicySpec) : Type 0 where
  pub paths :
      All
        (λ m. OwnerFits spec.action m.owner_only × All SourceFits m.from_source)
        spec.file.match_paths
  pub directories : All (λ m. OwnerFits spec.action m.owner_only) spec.file.match_directories
  pub patterns : All (λ m. OwnerFits spec.action m.owner_only) spec.file.match_patterns

pub and_then_iff : (a b : Option PolicyError) → (and_then a b ≡ none) ↔ ((a ≡ none) × (b ≡ none))
and_then_iff none b = (λ h. (refl, h), λ h. h.1)
and_then_iff (some e) b = (λ h. cc, λ h. h.0)

first_error_iff {ℓ κ} :
    {A : Type ℓ} (P : A → Type κ) (body : A → Option PolicyError)
    → ((x : A) → (body x ≡ none) ↔ P x)
    → (xs : List A) → (first_error body xs ≡ none) ↔ All P xs
unfolding first_error
first_error_iff P body h [] = (λ _. tt, λ _. refl)
first_error_iff P body h (x ∷ xs) =
    let both = and_then_iff (body x) (first_error body xs) in
    let rest = first_error_iff P body h xs in
    (λ e. ((h x).0 (both.0 e).0, rest.0 (both.0 e).1), λ a. both.1 ((h x).1 a.0, rest.1 a.1))

check_owner_iff :
    (action : String) (owner_only : Bool)
    → (check_owner action owner_only ≡ none) ↔ OwnerFits action owner_only
check_owner_iff action owner_only =
    (λ h e. ground (arith, eq_iff action "Allow"), λ h. ground (arith, eq_iff action "Allow"))

check_source_iff : (m : MatchSourceType) → (check_source m ≡ none) ↔ SourceFits m
check_source_iff m =
    (λ h n. ground (arith, eq_iff m.path ""), λ h. ground (arith, eq_iff m.path ""))

check_source_any_iff : (m : MatchSourceType) → (check_source_any m ≡ none) ↔ SourceIsNoPath m
check_source_any_iff m =
    (λ h. ground (arith, eq_iff m.path ""), λ h. ground (arith, eq_iff m.path ""))

pub ×_iff : {A B C D : Type 0} → A ↔ C → B ↔ D → (A × B) ↔ (C × D)
×_iff f g = (λ (a, b). (f.0 a, g.0 b), λ (c, d). (f.1 c, g.1 d))

pub ∘_iff : {A B C : Type 0} → A ↔ B → B ↔ C → A ↔ C
∘_iff f g = (λ a. g.0 (f.0 a), λ c. f.1 (g.1 c))

owner_list_iff {ℓ} :
    {A : Type ℓ} (action : String) (owner_only : A → Bool) (xs : List A)
    → (first_error (λ m. check_owner action (owner_only m)) xs ≡ none)
      ↔ All (λ m. OwnerFits action (owner_only m)) xs
owner_list_iff action owner_only xs =
    first_error_iff (λ m. OwnerFits action (owner_only m)) _
      (λ m. check_owner_iff action (owner_only m)) xs

-- The check of the process rules passes exactly the policies in which a rule for the owner only
-- stands under the action Allow and no source of a path rule is a path.
pub validate_process_schema_iff :
    (spec : KubeArmorHostPolicySpec) → (validate_process_schema spec ≡ none) ↔ IsProcessValid spec
unfolding validate_process_schema
validate_process_schema_iff spec =
    let paths =
      first_error_iff (λ m. OwnerFits spec.action m.owner_only × All SourceIsNoPath m.from_source)
        (λ m.
          and_then (check_owner spec.action m.owner_only)
            (first_error check_source_any m.from_source))
        (λ m. ∘_iff (and_then_iff _ _) (
          ×_iff (check_owner_iff spec.action m.owner_only)
            (first_error_iff SourceIsNoPath check_source_any check_source_any_iff m.from_source)))
        spec.process.match_paths in
    let directories =
      owner_list_iff spec.action (λ m. m.owner_only) spec.process.match_directories in
    let patterns = owner_list_iff spec.action (λ m. m.owner_only) spec.process.match_patterns in
    let all =
      ∘_iff (and_then_iff _ _)
        (×_iff paths (∘_iff (and_then_iff _ _) (×_iff directories patterns))) in
    (
      λ h. let (p, q) = all.0 h in record { paths = p; directories = q.0; patterns = q.1 },
      λ v. all.1 (v.paths, (v.directories, v.patterns)),
    )

-- The check of the file rules passes exactly the policies in which a rule for the owner only stands
-- under the action Allow and no source of a path rule that is a path is recursive.
pub validate_file_schema_iff :
    (spec : KubeArmorHostPolicySpec) → (validate_file_schema spec ≡ none) ↔ IsFileValid spec
unfolding validate_file_schema
validate_file_schema_iff spec =
    let paths =
      first_error_iff (λ m. OwnerFits spec.action m.owner_only × All SourceFits m.from_source)
        (λ m.
          and_then (check_owner spec.action m.owner_only) (first_error check_source m.from_source))
        (λ m. ∘_iff (and_then_iff _ _) (
          ×_iff (check_owner_iff spec.action m.owner_only)
            (first_error_iff SourceFits check_source check_source_iff m.from_source)))
        spec.file.match_paths in
    let directories = owner_list_iff spec.action (λ m. m.owner_only) spec.file.match_directories in
    let patterns = owner_list_iff spec.action (λ m. m.owner_only) spec.file.match_patterns in
    let all =
      ∘_iff (and_then_iff _ _)
        (×_iff paths (∘_iff (and_then_iff _ _) (×_iff directories patterns))) in
    (
      λ h. let (p, q) = all.0 h in record { paths = p; directories = q.0; patterns = q.1 },
      λ v. all.1 (v.paths, (v.directories, v.patterns)),
    )

-- The check of the network rules passes exactly the policies in which no source of a protocol is a
-- path, recursive or not.
pub validate_network_schema_iff :
    (spec : KubeArmorHostPolicySpec)
    → (validate_network_schema spec ≡ none)
      ↔ All (λ m. All SourceIsNoPath m.from_source) spec.network.match_protocols
unfolding validate_network_schema
validate_network_schema_iff spec =
    first_error_iff (λ m. All SourceIsNoPath m.from_source) _
      (λ m. first_error_iff SourceIsNoPath check_source_any check_source_any_iff m.from_source)
      spec.network.match_protocols

-- The check of the capability rules passes exactly the policies in which no source of a capability
-- is a path, recursive or not.
pub validate_capabilities_schema_iff :
    (spec : KubeArmorHostPolicySpec)
    → (validate_capabilities_schema spec ≡ none)
      ↔ All (λ m. All SourceIsNoPath m.from_source) spec.capabilities.match_capabilities
unfolding validate_capabilities_schema
validate_capabilities_schema_iff spec =
    first_error_iff (λ m. All SourceIsNoPath m.from_source) _
      (λ m. first_error_iff SourceIsNoPath check_source_any check_source_any_iff m.from_source)
      spec.capabilities.match_capabilities
