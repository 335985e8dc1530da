-- ===== src/Operator/Daemon.antt =====
-- The watch of external workloads (src/operator/core/crdHandler.go) and the daemon's main function
-- (src/operator/core/kvmOperator.go). The watcher is a routine beside the main one, and nothing
-- stops it: no one reads StopChan, and DestroyKVMSOperator waits for no routine, since none is counted.
-- In the model some of its rounds come before the deletion and some after it, until the process ends;
-- the deletion falls between two rounds. The waits are left out.
pub mod Watched
pub mod Late
use kvm_service.Prelude.{ℕ, String, List, Option, none, some, true, false}
use kvm_service.Constants.{kew_crd_name}
use kvm_service.Go.Outcome.{Outcome, Prog, done, exit, panicked, continue}
use kvm_service.Types.Workloads.{K8sKubeArmorExternalWorkloadPolicyEvent}
use kvm_service.Etcd.Driver.{Driver}
use kvm_service.Common.Environment.{Environment}
use kvm_service.K8s.Handler.{
  K8sHandler, Platform, init_k8s_client, watch_k8s_external_workload_security_policies,
}
use kvm_service.K8s.Watch.{Watching, watch_rounds, beside}
use kvm_service.Operator.State.{Operator, new_kvms_operator_daemon, destroy_kvms_operator}
use kvm_service.Operator.Events.{handle_event}

module _ {E H R : Type 0} (d : Driver E) (p : Platform H R) (env : Environment)
    (decoded : R → List K8sKubeArmorExternalWorkloadPolicyEvent) (random : ℕ → ℕ) (draws : ℕ) where
  -- The first rounds of the loop.
  unfoldable pub watch_external_workload_security_policies :
      K8sHandler → ℕ → Prog (Watching (Operator E) H) (Unit {0})
  watch_external_workload_security_policies kh =
      watch_rounds p env kh kew_crd_name (watch_k8s_external_workload_security_policies p env kh)
        decoded (handle_event d random draws)

  -- What the main routine does after the signal: DestroyKVMSOperator.
  abbrev pub shut_down : Prog (Watching (Operator E) H) (Unit {0})
  shut_down w = beside w.api (destroy_kvms_operator d w.daemon)

  -- Without a client for Kubernetes there is no watcher. A daemon whose etcd client is nil panics in
  -- DestroyKVMSOperator, if it has not before.
  unfoldable pub run_daemon : K8sHandler → ℕ → ℕ → Prog (Watching (Operator E) H) (Unit {0})
  run_daemon kh rounds more w =
      let (initialized, kh') = init_k8s_client p env kh in
      elim initialized [
        | true ↦ continue (watch_external_workload_security_policies kh' rounds w) (λ _ w1.
            continue (shut_down w1) (λ _. watch_external_workload_security_policies kh' more))
        | false ↦ shut_down w
      ]

  -- The process leaves the contents of etcd.
  abbrev pub leaves : Outcome (Watching (Operator E) H) (Unit {0}) → Outcome E (Unit {0})
  leaves (done a w) = done a w.daemon.etcd
  leaves (exit e w) = exit e w.daemon.etcd

  unfoldable pub kvms_operator_daemon : String → K8sHandler → ℕ → ℕ → H → E → Outcome E (Unit {0})
  kvms_operator_daemon endpoint kh rounds more h e =
      let (daemon, e') = new_kvms_operator_daemon d endpoint e in
      elim daemon [
        | none ↦ exit panicked e'
        | some dm ↦ leaves (run_daemon kh rounds more (record { daemon = dm; api = h }))
      ]
