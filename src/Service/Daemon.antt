-- ===== src/Service/Daemon.antt =====
-- The watch of host policies (src/service/core/kvmsUpdate.go) and the start of the service process
-- (src/service/core/kvmService.go). The waits and the signal that ends the process are left out; the
-- routines that the start sets going are named in its result.
pub mod Announced
use kvm_service.Prelude.{ℕ, String, List, [], ◌∷◌, Option, none, some, true, false, GoMap}
use kvm_service.Constants.{khp_crd_name}
use kvm_service.Go.Outcome.{Outcome, Prog, done, exit, running, Result, continue}
use kvm_service.Common.Environment.{Environment}
use kvm_service.Common.Match.{JsonCodec}
use kvm_service.Common.Network.{get_external_ip}
use kvm_service.GenScript.{GenScript, init_gen_script}
use kvm_service.Types.Events.{HostSecuritySpec, K8sKubeArmorHostPolicyEvent}
use kvm_service.Etcd.Driver.{Driver}
use kvm_service.K8s.Handler.{
  K8sHandler, Platform, init_k8s_client, watch_k8s_host_security_policies,
}
use kvm_service.K8s.Watch.{Watching, watch_rounds}
use kvm_service.Service.State.{Kvms, new_kvms_daemon}
use kvm_service.Service.Core.{handle_event}

-- The routines that KVMSDaemon starts.
pub data Routine : Type 0 where
  watch_host_policies keep_alive_etcd serve_grpc : Routine

-- What KVMSDaemon has when it waits for the signal.
pub record Started (E : Type 0) : Type 0 where
  -- a daemon whose etcd client is nil is none
  pub daemon : Option (Kvms E)
  pub k8s : K8sHandler
  pub routines : List Routine

module _ {E H R : Type 0} (d : Driver E) (p : Platform H R) (env : Environment)
    (range : GoMap String String → GoMap String String) (json : JsonCodec HostSecuritySpec)
    (decoded : R → List K8sKubeArmorHostPolicyEvent) where
  -- The first rounds of the loop.
  unfoldable pub watch_host_security_policies :
      K8sHandler → ℕ → Prog (Watching (Kvms E) H) (Unit {0})
  watch_host_security_policies kh =
      watch_rounds p env kh khp_crd_name (watch_k8s_host_security_policies p env kh) decoded
        (handle_event d range json)

-- InitGenScript, with what the daemon keeps.
unfoldable pub with_script : {E : Type 0} → Option (Kvms E) → Option (Kvms E)
with_script none = none
with_script (some s) =
    some (record s { gen_script = init_gen_script s.cluster_port s.clusterip_address s.gen_script })

module _ {E H R : Type 0} (d : Driver E) (p : Platform H R) (env : Environment) where
  -- What KVMSDaemon does with a daemon.
  unfoldable pub start_routines : K8sHandler → Option (Kvms E) → Prog E (Option (Started E))
  start_routines kh daemon e =
      let (initialized, kh') = init_k8s_client p env kh in
      elim initialized [
        | true ↦
            done
              (some (record {
                daemon = daemon;
                k8s = kh';
                routines = watch_host_policies ∷ keep_alive_etcd ∷ serve_grpc ∷ [];
              }))
              e
        | false ↦ done (some (record { daemon = daemon; k8s = kh'; routines = [] })) e
      ]

  -- `clientset` and `answer` are the client of Kubernetes, where it can be made, and what it answers to
  -- GetExternalIP in so many rounds of its loop. With an error of that the process ends, which is none.
  -- The script of a daemon that is made is set to the port and the address.
  unfoldable pub kvms_daemon :
      ℕ
      → Result (Unit {0})
      → (ℕ → Result (List String))
      → ℕ
      → String
      → Result String
      → GenScript
      → K8sHandler
      → Prog E (Option (Started E))
  kvms_daemon port clientset answer rounds endpoint local_addr script kh e =
      elim (get_external_ip clientset answer rounds) [
        | exit how state ↦ exit how e
        | done (external_ip, some error) state ↦ done none e
        | done (external_ip, none) state ↦
            continue (new_kvms_daemon d port external_ip endpoint local_addr script e)
              (λ daemon. start_routines kh (with_script daemon))
      ]
