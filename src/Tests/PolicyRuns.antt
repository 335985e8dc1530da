-- ===== src/Tests/PolicyRuns.antt =====
-- Runs of the checks of host policies (pkg/KubeArmorHostPolicy/controllers), of the helpers of
-- src/common and of the installation script.
use kvm_service.Prelude.{
  ℕ, String, List, [], ◌∷◌, ◌++◌, none, true, ◌≡◌, ◌≢◌, ◌↔◌, refl, ◌⊎◌, All, contains, ◌==◌, nat_eq,
  string_eq, if◌then◌else◌, arith,
}
use kvm_service.Go.Strconv.{pos}
use kvm_service.Go.Strings.{split}
use kvm_service.Go.Outcome.{done, Result, ok, err}
use kvm_service.HostPolicy.Types.{KubeArmorHostPolicy, KubeArmorHostPolicySpec}
use kvm_service.HostPolicy.Schema.{validate_process_schema}
use kvm_service.HostPolicy.Schema.Laws.{IsProcessValid, validate_process_schema_iff}
use kvm_service.HostPolicy.Reconcile.{
  found, ClusterClient, policy_error, with_status, reconcile, IsValidPolicy,
}
use kvm_service.HostPolicy.Reconcile.Status.{policy_error_iff, reconcile-status}
use kvm_service.Common.Expand.{Object, obj_comma_can_be_expanded, obj_comma_expand_first_dup_others}
use kvm_service.Common.Expand.Again.{IsClean, items_of, obj_comma_expand_first_dup_others-again}
use kvm_service.Common.Match.{match_identities, match_identities_iff}
use kvm_service.Common.Network.{get_external_ip}
use kvm_service.Common.Network.Polling.{get_external_ip-address, get_external_ip-hides_error}
use kvm_service.GenScript.{GenScript, script_contents, generate_ew_installation_script}
use kvm_service.GenScript.Lines.{split-generate}

-- A policy that allows a path for its owner, from a source that is a directory.
abbrev spec : KubeArmorHostPolicySpec
spec = record {
  node_selector = record { match_labels = none };
  process = record {
    match_paths =
        record {
          path = "/bin/sh";
          owner_only = true;
          from_source = record { path = ""; directory = "/usr/bin/"; recursive = true } ∷ [];
          severity = pos 1;
          tags = [];
          message = "";
          action = "Allow";
        }
        ∷ [];
    match_directories = [];
    match_patterns = [];
    severity = pos 1;
    tags = [];
    message = "";
    action = "Allow";
  };
  file = record {
    match_paths = [];
    match_directories = [];
    match_patterns = [];
    severity = pos 1;
    tags = [];
    message = "";
    action = "Allow";
  };
  network = record {
    match_protocols = [];
    severity = pos 1;
    tags = [];
    message = "";
    action = "Allow";
  };
  capabilities = record {
    match_capabilities = [];
    severity = pos 1;
    tags = [];
    message = "";
    action = "Allow";
  };
  app_armor = "";
  severity = pos 1;
  tags = [];
  message = "";
  action = "Allow";
}

abbrev policy : KubeArmorHostPolicy
policy = record {
  object_meta = record { name = "policy"; labels = none };
  spec = spec;
  status = record { policy_status = "" };
}

validate_process_schema_iff_example : (validate_process_schema spec ≡ none) ↔ IsProcessValid spec
validate_process_schema_iff_example = validate_process_schema_iff spec

policy_error_iff_example : (policy_error spec ≡ none) ↔ IsValidPolicy spec
policy_error_iff_example = policy_error_iff spec

-- A cluster with the one policy, whose status is the state.
abbrev cluster : ClusterClient String
cluster = record {
  get = λ name status. found policy;
  update_status = λ p status. (none, p.status.policy_status);
}

reconcile-status_example :
    (IsValidPolicy spec
      × (reconcile cluster "policy" ""
          ≡ (none, (cluster.update_status (with_status "OK" policy) "").1)))
    ⊎ ((IsValidPolicy spec → ⊥)
        × (reconcile cluster "policy" "" ≡ cluster.update_status (with_status "Not OK" policy) ""))
reconcile-status_example = reconcile-status cluster "policy" "" policy refl

abbrev wanted : List String
wanted = "a=b" ∷ []

abbrev held : List String
held = "c=d" ∷ "a=b" ∷ []

match_identities_iff_example :
    (match_identities wanted held ≡ true)
    ↔ ((wanted ≢ []) × All (λ i. contains held i ≡ true) wanted)
match_identities_iff_example = match_identities_iff wanted held

-- The address comes with the third answer.
abbrev third : ℕ → Result (List String)
third n = if n == 2 then ok ("10.0.0.2" ∷ []) else ok []

get_external_ip-address_example : get_external_ip (ok tt) third 4 ≡ done ("10.0.0.2", none) tt
get_external_ip-address_example =
    get_external_ip-address third 2 1 "10.0.0.2" [] (λ j h. ground arith) refl (λ e. cc)

-- The second answer is an error.
abbrev broken : ℕ → Result (List String)
broken n = if n == 1 then err "timeout" else ok []

get_external_ip-hides_error_example : get_external_ip (ok tt) broken 2 ≡ done ("", none) tt
get_external_ip-hides_error_example =
    get_external_ip-hides_error broken 1 0 "timeout" (λ j h. ground arith) refl

abbrev script : GenScript
script = record { p = record { port = 32767; ip_address = "10.0.0.2" }; script_data = "old" }

split-generate_example :
    split b'\n' (generate_ew_installation_script "vm" "5" script).0
    ≡ script_contents script.p "5" ++ "" ∷ []
split-generate_example = split-generate "vm" "5" script refl refl

-- Two paths in one field.
abbrev two_paths : Object String
two_paths = Object.items (record { field0 = "/bin/a, /bin/b"; others = "x" } ∷ [])

obj_comma_expand_first_dup_others-again_example :
    (obj_comma_expand_first_dup_others (obj_comma_expand_first_dup_others two_paths)
      ≡ obj_comma_expand_first_dup_others two_paths)
    × (obj_comma_can_be_expanded two_paths ≡ true
        → All IsClean (items_of (obj_comma_expand_first_dup_others two_paths)))
obj_comma_expand_first_dup_others-again_example = obj_comma_expand_first_dup_others-again two_paths
