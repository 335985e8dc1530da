-- ===== src/Tests/WatchRuns.antt =====
-- A run of the watch of host policies (src/service/core/kvmsUpdate.go), with a store in memory and an
-- API server that answers every watch with one event.
use kvm_service.Prelude.{String, List, [], ◌∷◌, refl, All}
use kvm_service.Go.Outcome.{Returns}
use kvm_service.Types.Events.{K8sKubeArmorHostPolicyEvent}
use kvm_service.Etcd.Memory.{memory}
use kvm_service.Service.Daemon.{watch_host_security_policies}
use kvm_service.Service.Daemon.Announced.{
  watched, IsAnnounced, watch_host_security_policies-IsAnnounced,
}
use kvm_service.Tests.ServiceRuns.{service}
use kvm_service.Tests.CoreRuns.{as_is, codec, event, published}
use kvm_service.Tests.ClusterRuns.{in_cluster, server, handler}

-- What the one response holds.
abbrev one_event : String → List K8sKubeArmorHostPolicyEvent
one_event response = event ∷ []

watch_host_security_policies-IsAnnounced_example :
    Returns
      (λ _ w. All (IsAnnounced (watched server in_cluster one_event handler 2 0)) w.daemon.sent)
      (watch_host_security_policies memory server in_cluster as_is codec one_event handler 2
        (record { daemon = service published; api = 0 }))
watch_host_security_policies-IsAnnounced_example =
    watch_host_security_policies-IsAnnounced memory server in_cluster as_is codec one_event handler
      2 (record { daemon = service published; api = 0 }) refl
