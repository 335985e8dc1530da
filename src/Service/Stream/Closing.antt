-- ===== src/Service/Stream/Closing.antt =====
-- The end of a policy stream: the routine of SendPolicy that waits for the end of the call
-- (src/service/server/kvmserver.go), and the message that makes the stream return.
pub mod Ended
pub mod Shut
use kvm_service.Prelude.{ℕ, String, [], none, true}
use kvm_service.Go.Outcome.{Prog, ◌>>◌}
use kvm_service.Go.Strconv.{pos}
use kvm_service.Types.Events.{
  HostSecuritySpec, K8sKubeArmorHostPolicyEvent, K8sKubeArmorHostPolicyEventWithIdentity,
}
use kvm_service.Etcd.Driver.{Driver}
use kvm_service.Service.State.{Kvms, send}
use kvm_service.Service.Server.{update_etcd_label_to_identities_maps}

-- The zero value of the event.
abbrev no_spec : HostSecuritySpec
no_spec = record {
  node_selector = record { match_labels = none; identities = [] };
  process = record {
    match_paths = [];
    match_directories = [];
    match_patterns = [];
    severity = pos 0;
    tags = [];
    message = "";
    action = "";
  };
  file = record {
    match_paths = [];
    match_directories = [];
    match_patterns = [];
    severity = pos 0;
    tags = [];
    message = "";
    action = "";
  };
  network = record { match_protocols = []; severity = pos 0; tags = []; message = ""; action = "" };
  capabilities = record {
    match_capabilities = [];
    severity = pos 0;
    tags = [];
    message = "";
    action = "";
  };
  app_armor = "";
  severity = pos 0;
  tags = [];
  message = "";
  action = "";
}

abbrev no_event : K8sKubeArmorHostPolicyEvent
no_event = record {
  type = "";
  object = record {
    metadata = record { name = ""; labels = none };
    spec = no_spec;
    status = record { status = "" };
  };
}

abbrev pub close_event : ℕ → K8sKubeArmorHostPolicyEventWithIdentity
close_event identity = record { event = no_event; identity = identity; close_connection = true }

-- What the routine does, once, when the context of the call is done.
unfoldable pub leave_stream : {E : Type 0} → Driver E → ℕ → Prog (Kvms E) (Unit {0})
leave_stream d identity = do
  update_etcd_label_to_identities_maps d identity
  send (close_event identity)
