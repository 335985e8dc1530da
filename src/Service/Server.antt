-- ===== src/Service/Server.antt =====
-- The handlers of the gRPC server (src/service/server/kvmserver.go, clihandler.go).
pub mod Reads
pub mod Registration
pub mod Departure
pub mod Cli
pub mod Identity
use mathlib.Core.Option.{get_or as value_or}
use kvm_service.Prelude.{
  ℕ, String, List, [], ◌∷◌, Option, none, some, Bool, true, false, ◌&&◌, GoMap, lookup, take, not,
  ◌<>◌, ◌==◌, string_eq, if◌then◌else◌,
}
use kvm_service.Constants.{
  kvm_svc_identiti_to_pod_ips, kvm_opr_identity_to_label, kvm_opr_label_to_identities,
  kvm_opr_ewname_to_identity,
}
use kvm_service.Go.Outcome.{
  Prog, Outcome, done, exit, panicked, fatal, Result, ok, err, pure, stop, gets, fatal_on, for_each,
  continue, ◌>>=◌, ◌>>◌,
}
use kvm_service.Go.Strconv.{ℤ, pos, negsuc, atoi, to_uint16, format_uint}
use kvm_service.Go.Strings.{split, last_piece}
use kvm_service.Go.Slice.{Window, remove_identity}
use kvm_service.Go.Json.{marshal_ids, unmarshal_ids}
use kvm_service.GenScript.{generate_ew_installation_script}
use kvm_service.Etcd.Driver.{Driver}
use kvm_service.Etcd.Client.{etcd_get, etcd_get_raw}
use kvm_service.Service.State.{Kvms, put_or_fatal, try_delete, try_put_with_ttl}

-- GetIdentityFromContext, of the metadata's values under "identity"; none has no metadata.
unfoldable pub get_identity_from_context : Option (List String) → ℕ
get_identity_from_context none = to_uint16 (atoi "")
get_identity_from_context (some []) = to_uint16 (atoi "")
get_identity_from_context (some (token ∷ values)) = to_uint16 (atoi token)

-- A nil map reads as empty.
abbrev pub index_nil : Option (GoMap String String) → String → String
index_nil none key = ""
index_nil (some m) key = value_or (lookup key m) ""

-- `len` of a map that may be nil is 0.
abbrev pub is_empty : Option (GoMap String String) → Bool
is_empty none = true
is_empty (some []) = true
is_empty (some (kv ∷ m)) = false

-- The last part of a key.
unfoldable pub last_of_key : String → String
last_of_key key = last_piece (split b'/' key)

-- Whether a key of the map ends with the identity.
unfoldable pub some_key_ends : GoMap String String → String → Bool
unfolding last_of_key
some_key_ends [] identity = false
some_key_ends ((key, value) ∷ m) identity =
    if last_of_key key == identity then true else some_key_ends m identity

-- `data.Kvs` of a nil response is a nil dereference.
unfoldable pub for_response :
    {E : Type 0}
    → Option (GoMap String String)
    → (String × String → Prog (Kvms E) (Unit {0}))
    → Prog (Kvms E) (Unit {0})
for_response none body = stop panicked
for_response (some kvs) body = for_each kvs body

-- The status codes -1 and 0 of the protocol.
pub data Status : Type 0 where
  refused accepted : Status

pub record ResponseStatus : Type 0 where
  pub script_data : String
  pub status_msg : String
  pub status : Status

module _ {E : Type 0} (d : Driver E) where
  -- EtcdGet and EtcdGetRaw, each with `if err != nil { log.Fatal(err) }`
  unfoldable pub get_or_fatal : String → Prog (Kvms E) (Option (GoMap String String))
  get_or_fatal key s = fatal_on (etcd_get d s.etcd_client key s.etcd) s

  unfoldable pub get_raw_or_fatal : String → Prog (Kvms E) (Option (GoMap String String))
  get_raw_or_fatal key s = fatal_on (etcd_get_raw d s.etcd_client key s.etcd) s

  -- `array[:len]` after the loop.
  abbrev kept : Window → List ℕ
  kept w = take w.len w.array

  -- The body of the loop over `data.Kvs`. `arr` stands outside of the loop, but `json.Unmarshal` sets
  -- it anew; a nil slice stays nil.
  unfoldable pub remove_and_store : ℕ → String → String × String → Prog (Kvms E) (Unit {0})
  remove_and_store identity label (key, value) = elim (unmarshal_ids value) [
    | none ↦ stop fatal
    | some none ↦ put_or_fatal d (kvm_opr_label_to_identities <> label) (marshal_ids none)
    | some (some arr) ↦ elim (remove_identity identity arr) [
      | none ↦ stop panicked
      | some w ↦ put_or_fatal d (kvm_opr_label_to_identities <> label) (marshal_ids (some (kept w)))
    ]
  ]

  -- What UpdateETCDLabelToIdentitiesMaps does once the pod's entry is deleted.
  unfoldable pub leave_label : ℕ → Prog (Kvms E) (Unit {0})
  leave_label identity = do
    label_kv ← get_or_fatal (kvm_opr_identity_to_label <> format_uint identity)
    let label = index_nil label_kv (kvm_opr_identity_to_label <> format_uint identity)
    response ← get_raw_or_fatal (kvm_opr_label_to_identities <> label)
    for_response response (remove_and_store identity label)

  -- The second half of IsIdentityServing.
  unfoldable pub is_identity_known : String → Prog (Kvms E) Bool
  is_identity_known identity = do
    etcd_labels ← get_or_fatal kvm_opr_identity_to_label
    pure (some_key_ends (value_or etcd_labels []) identity)

  -- The write of RegisterAgentIdentity.
  unfoldable pub claim : String → Prog (Kvms E) (Status × Option String)
  claim identity s =
      continue (try_put_with_ttl d (kvm_svc_identiti_to_pod_ips <> identity) s.server.pod_ip s)
        (λ r. elim r [ err m ↦ pure (refused, some m) | ok _ ↦ pure (accepted, none) ])

  -- The successful end of HandleCliRequest.
  unfoldable pub answer : String → String → Prog (Kvms E) ResponseStatus
  answer kvm_name identity s =
      let (script, g) = generate_ew_installation_script kvm_name identity s.gen_script in
      done (record { script_data = script; status_msg = "Success"; status = accepted })
        (record s { gen_script = g })

  -- An error of the delete is logged, and the method returns.
  unfoldable pub update_etcd_label_to_identities_maps : ℕ → Prog (Kvms E) (Unit {0})
  update_etcd_label_to_identities_maps identity s =
      continue (try_delete d (kvm_svc_identiti_to_pod_ips <> format_uint identity) s)
        (λ r. elim r [ err m ↦ pure tt | ok _ ↦ leave_label identity ])

  unfoldable pub is_identity_serving : String → Prog (Kvms E) Bool
  is_identity_serving identity = do
    kv_pair ← get_or_fatal (kvm_svc_identiti_to_pod_ips <> identity)
    if not (is_empty kv_pair) then pure false else is_identity_known identity

  -- What RegisterAgentIdentity does with the answer of its test.
  unfoldable pub after_test : String → Bool → Prog (Kvms E) (Status × Option String)
  after_test identity serving = if serving then claim identity else pure (refused, none)

  -- RegisterAgentIdentity returns its status, and the error of the last write. The number read from
  -- the identity is only logged.
  unfoldable pub register_agent_identity : String → Prog (Kvms E) (Status × Option String)
  register_agent_identity identity = is_identity_serving identity >>= after_test identity

  unfoldable pub reply_for : String → String → Prog (Kvms E) ResponseStatus
  reply_for kvm_name identity =
      if identity == ""
      then pure (record {
        script_data = "";
        status_msg = "Error: KVM Name is not present in DB";
        status = refused;
      })
      else answer kvm_name identity

  -- HandleCliRequest: the script data, the message and the status.
  unfoldable pub handle_cli_request : String → Prog (Kvms E) ResponseStatus
  handle_cli_request kvm_name = do
    kv_pair ← get_or_fatal (kvm_opr_ewname_to_identity <> kvm_name)
    let identity = index_nil kv_pair (kvm_opr_ewname_to_identity <> kvm_name)
    reply_for kvm_name identity
