-- ===== src/Operator/Daemon/Watched.antt =====
-- What the operator's watcher makes of the events that it reads from a new daemon on.
use mathlib.Core.Option.{some_inj}
use kvm_service.Prelude.{
  contains, ℕ, String, List, [], none, some, ◌≡◌, refl, sym, ◌∙◌, ap, subst, lookup, string_eq,
  Option-cases, inl, inr,
}
use kvm_service.Constants.{kew_crd_name}
use kvm_service.Go.Outcome.{Returns}
use kvm_service.Types.Workloads.{K8sKubeArmorExternalWorkloadPolicyEvent}
use kvm_service.Etcd.Driver.{Driver}
use kvm_service.Etcd.Client.{new_etcd_client}
use kvm_service.Common.Environment.{Environment}
use kvm_service.K8s.Handler.{K8sHandler, Platform, watch_k8s_external_workload_security_policies}
use kvm_service.Go.Outcome.Rules.{Returns-weaken}
use kvm_service.Operator.Events.Inverse.{is_some}
use kvm_service.Operator.Catalog.View.{is_some-view}
use kvm_service.K8s.Watch.{Watching, first_events, watch_rounds-for_each, Returns-daemon_side}
use kvm_service.Operator.State.{Operator, new_kvms_operator_daemon}
use kvm_service.Operator.Events.{handle_event, handle_events}
use kvm_service.Operator.Catalog.{view, Catalog, replay, IsStream}
use kvm_service.Operator.Catalog.Refinement.{Represents, handle_events-Represents}
use kvm_service.Operator.Daemon.{watch_external_workload_security_policies}

-- No workload.
abbrev pub nothing : Catalog
nothing n = none

empty-Represents :
    {E : Type 0} (s : Operator E)
    → s.external_workload_security_policies ≡ []
    → s.map_identity_to_ewname ≡ []
    → s.map_ewname_to_identity ≡ []
    → Represents nothing s
unfolding view lookup contains
empty-Represents s h i j = record {
  consistent =
      rw (h, i, j)
        (record {
          inverse = λ n k. (λ e. cc, λ e. cc);
          named = λ n k e. cc;
          in_range = λ n k e. cc;
          complete = λ n. refl;
          distinct = tt;
        });
  selectors = rw h tt;
  seen = λ n. rw h refl;
}

-- A daemon that has just been made represents no workload.
pub new_kvms_operator_daemon-Represents :
    {E : Type 0} (d : Driver E) (endpoint : String) (e : E) (s : Operator E)
    → (new_kvms_operator_daemon d endpoint e).0 ≡ some s
    → Represents nothing s
unfolding new_kvms_operator_daemon
new_kvms_operator_daemon-Represents d endpoint e s made =
    elim (Option-cases (new_etcd_client d endpoint e).0) [
      | inl failed ↦ let q : none ≡ some s = rw (failed, new_kvms_operator_daemon) at made in cc
      | inr (cli, h) ↦
          subst (Represents nothing) (some_inj.0 (rw (h, new_kvms_operator_daemon) at made))
            (empty-Represents _ refl refl refl)
    ]

module _ {H R : Type 0} (p : Platform H R) (env : Environment)
    (decoded : R → List K8sKubeArmorExternalWorkloadPolicyEvent) where
  -- The events of the watcher's first rounds.
  abbrev pub watched : K8sHandler → ℕ → H → List K8sKubeArmorExternalWorkloadPolicyEvent
  watched kh =
      first_events p env kh kew_crd_name (watch_k8s_external_workload_security_policies p env kh)
        decoded

module _ {E H R : Type 0} (d : Driver E) (p : Platform H R) (env : Environment)
    (decoded : R → List K8sKubeArmorExternalWorkloadPolicyEvent) (random : ℕ → ℕ) (draws : ℕ) where
  watch_rounds-Represents :
      (kh : K8sHandler) (rounds : ℕ) (c : Catalog) (w : Watching (Operator E) H)
      → Represents c w.daemon
      → IsStream (watched p env decoded kh rounds w.api) c
      → Returns
          (λ _ w'. Represents (replay (watched p env decoded kh rounds w.api) c) w'.daemon)
          (watch_external_workload_security_policies d p env decoded random draws kh rounds w)
  unfolding watch_external_workload_security_policies handle_events
  watch_rounds-Represents kh rounds c w r stream =
      Returns-daemon_side (Represents (replay (watched p env decoded kh rounds w.api) c)) _ (
        rw
          (watch_rounds-for_each p env kh kew_crd_name
            (watch_k8s_external_workload_security_policies p env kh) decoded
            (handle_event d random draws) rounds w)
          (handle_events-Represents d random draws (watched p env decoded kh rounds w.api) c
            w.daemon r stream))

  -- From a new daemon, where each event that the watcher's first rounds read is possible after
  -- those before it (an object is added once, or again with its labels), and whatever etcd answers,
  -- the rounds, when they return, leave the operator with the policies of the catalog that the
  -- events describe by themselves: the labels under each name are those of the catalog, the maps
  -- between names and identities are inverse to one another, and exactly the catalog's names have
  -- an identity.
  pub watch_external_workload_security_policies-Represents :
      (endpoint : String) (kh : K8sHandler) (rounds : ℕ) (h : H) (e : E) (s : Operator E)
      → (new_kvms_operator_daemon d endpoint e).0 ≡ some s
      → IsStream (watched p env decoded kh rounds h) nothing
      → Returns
          (λ _ w.
            Represents (replay (watched p env decoded kh rounds h) nothing) w.daemon
            × ((n : String)
                → is_some (lookup n w.daemon.map_ewname_to_identity)
                  ≡ is_some (replay (watched p env decoded kh rounds h) nothing n)))
          (watch_external_workload_security_policies d p env decoded random draws kh rounds
            (record { daemon = s; api = h }))
  watch_external_workload_security_policies-Represents endpoint kh rounds h e s made stream =
      Returns-weaken _ _
        (watch_external_workload_security_policies d p env decoded random draws kh rounds
          (record { daemon = s; api = h }))
        (watch_rounds-Represents kh rounds nothing (record { daemon = s; api = h })
          (new_kvms_operator_daemon-Represents d endpoint e s made) stream)
        (λ _ w r. (
          r,
          λ n.
              r.consistent.complete n
              ∙ sym (is_some-view w.daemon.external_workload_security_policies n)
              ∙ ap is_some (r.seen n),
        ))
