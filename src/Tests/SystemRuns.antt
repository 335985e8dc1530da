-- ===== src/Tests/SystemRuns.antt =====
-- A run of the operator and the service on one store in memory.
use kvm_service.Prelude.{String, [], ◌≡◌, refl, GoMap, lookup, nat_eq, string_eq}
use kvm_service.Go.Outcome.{done, final}
use kvm_service.Etcd.Memory.{memory, memory-IsLawful, memory-IsHealthy}
use kvm_service.Etcd.Client.{etcd_put, etcd_delete}
use kvm_service.Operator.State.{Operator, put_or_fatal, destroy_kvms_operator}
use kvm_service.Operator.Identities.{is_free, register, generate_external_workload_identity}
use kvm_service.Operator.Labels.{find, update_identity_labels_map}
use kvm_service.Operator.Events
use kvm_service.System.{World, Run, operator_of, workload, ending, start, next, after_operator}
use kvm_service.System.Sound.{IsSound, Run-IsSound}
use kvm_service.Tests.OperatorRuns.{fresh, event_of, counting}
use kvm_service.Tests.CoreRuns.{as_is, codec}
use kvm_service.Tests.ServiceRuns.{service}

-- Nothing is stored, and the operator is new.
abbrev first : World (GoMap String String)
first = record { store = []; operator = fresh; service = service [] }

first-IsSound : IsSound memory-IsLawful.read first
unfolding lookup memory-IsLawful
first-IsSound = record {
  stored = λ key value below h. cc;
  held = record { small = λ label ids h. cc; in_range = λ name i h. cc };
}

-- The operator admits a workload, and ends.
abbrev admitted : Operator (GoMap String String)
admitted = final (Events.handle_event memory counting 3 (event_of "ADDED" "vm") fresh)

admits : Events.handle_event memory counting 3 (event_of "ADDED" "vm") fresh ≡ done tt admitted
unfolding Events.handle_event Events.added Events.contains_policy
    generate_external_workload_identity is_free lookup register put_or_fatal etcd_put
    update_identity_labels_map find
admits = refl

abbrev second : World (GoMap String String)
second = after_operator memory memory-IsLawful.read counting 3 as_is codec first admitted

abbrev ended : Operator (GoMap String String)
ended = final (
    destroy_kvms_operator memory
      (operator_of memory memory-IsLawful.read counting 3 as_is codec second))

abbrev third : World (GoMap String String)
third = after_operator memory memory-IsLawful.read counting 3 as_is codec second ended

first_to_third : Run memory memory-IsLawful.read counting 3 as_is codec first third
unfolding destroy_kvms_operator etcd_delete
first_to_third =
    next (next start (workload first (event_of "ADDED" "vm") admitted admits))
      (ending second ended refl)

Run-IsSound_example : IsSound memory-IsLawful.read third
Run-IsSound_example =
    Run-IsSound memory memory-IsHealthy memory-IsLawful counting 3 as_is codec first-IsSound
      first_to_third
