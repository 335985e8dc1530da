-- ===== src/System.antt =====
-- The operator and the service on one store: their calls, in any order. The lists of the labels'
-- identities are written by both (src/operator/core/crdHandler.go, src/service/server/kvmserver.go)
-- and read by the service (src/service/core/kvmsUpdate.go). A step is one whole call that returns.
pub mod Lists
pub mod Memory
pub mod Operate
pub mod Serve
pub mod Sound
use kvm_service.Prelude.{ℕ, String, Option, ◌≡◌, GoMap}
use kvm_service.Go.Outcome.{done}
use kvm_service.Types.Events.{HostSecuritySpec, K8sKubeArmorHostPolicyEvent}
use kvm_service.Types.Workloads.{K8sKubeArmorExternalWorkloadPolicyEvent}
use kvm_service.Common.Match.{JsonCodec}
use kvm_service.Etcd.Driver.{Driver}
use kvm_service.Operator.State.{Operator, destroy_kvms_operator}
use kvm_service.Operator.Events
use kvm_service.Operator.Labels.Frame.{AllLists}
use kvm_service.Service.State.{Kvms}
use kvm_service.Service.Server.{
  Status, ResponseStatus, register_agent_identity, update_etcd_label_to_identities_maps,
  handle_cli_request,
}
use kvm_service.Service.Core

-- The contents of etcd, and the memory of the two processes: their own fields for the contents are set
-- from the store's before each call.
pub record World (E : Type 0) : Type 0 where
  pub store : E
  pub operator : Operator E
  pub service : Kvms E

module _ {E : Type 0} (d : Driver E) (read : E → String → Option String) (random : ℕ → ℕ)
    (draws : ℕ) (range : GoMap String String → GoMap String String)
    (json : JsonCodec HostSecuritySpec) where
  abbrev pub operator_of : World E → Operator E
  operator_of w = record w.operator { etcd = w.store }

  abbrev pub service_of : World E → Kvms E
  service_of w = record w.service { etcd = w.store }

  abbrev pub after_operator : World E → Operator E → World E
  after_operator w o = record w { store = o.etcd; operator = o }

  abbrev pub after_service : World E → Kvms E → World E
  after_service w s = record w { store = s.etcd; service = s }

  pub data Step : World E → World E → Type 0 where
    -- the operator handles an event of a workload
    workload :
        (w : World E) (event : K8sKubeArmorExternalWorkloadPolicyEvent) (o : Operator E)
        → Events.handle_event d random draws event (operator_of w) ≡ done tt o
        → Step w (after_operator w o)
    -- the operator ends
    ending :
        (w : World E) (o : Operator E)
        → destroy_kvms_operator d (operator_of w) ≡ done tt o
        → Step w (after_operator w o)
    -- the service handles an event of a host policy
    policy :
        (w : World E) (event : K8sKubeArmorHostPolicyEvent) (s : Kvms E)
        → Core.handle_event d range json event (service_of w) ≡ done tt s
        → Step w (after_service w s)
    -- an agent registers
    arrival :
        (w : World E) (identity : String) (r : Status × Option String) (s : Kvms E)
        → register_agent_identity d identity (service_of w) ≡ done r s
        → Step w (after_service w s)
    -- an agent leaves
    departure :
        (w : World E) (identity : ℕ) (s : Kvms E)
        → update_etcd_label_to_identities_maps d identity (service_of w) ≡ done tt s
        → Step w (after_service w s)
    -- a request of the command line
    request :
        (w : World E) (kvm_name : String) (r : ResponseStatus) (s : Kvms E)
        → handle_cli_request d kvm_name (service_of w) ≡ done r s
        → Step w (after_service w s)
    -- a lease ends, or another client writes: the lists are as before
    outside :
        (w : World E) (e : E) → AllLists (read w.store) (read e) → Step w (record w { store = e })

  pub data Run (w : World E) : World E → Type 0 where
    start : Run w w
    next : {u v : World E} → Run w u → Step u v → Run w v
