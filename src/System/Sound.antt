-- ===== src/System/Sound.antt =====
-- What holds in every run of the operator and the service on one store.
use kvm_service.Prelude.{ℕ, String, Option, ◌≡◌, refl, sym, subst, GoMap}
use kvm_service.Go.Outcome.{Outcome, done, Returns}
use kvm_service.Types.Events.{HostSecuritySpec}
use kvm_service.Common.Match.{JsonCodec}
use kvm_service.Etcd.Driver.{Driver, IsLawful, IsHealthy}
use kvm_service.Etcd.Client.{etcd_delete}
use kvm_service.Constants.{kvm_opr_label_to_identities}
use kvm_service.Operator.State.{Operator, destroy_kvms_operator}
use kvm_service.System.{
  World, Step, Run, operator_of, workload, ending, policy, arrival, departure, request, outside,
  start, next,
}
use kvm_service.System.Lists.{AreLists, AllLists-AreLists, delete-Listed}
use kvm_service.System.Memory.{AreSmall}
use kvm_service.System.Operate.{handle_event-Sound}
use kvm_service.System.Serve.{
  register_agent_identity-Readable, update_etcd_label_to_identities_maps-Readable,
  handle_cli_request-etcd,
}
use kvm_service.Service.Core.Unwritten.{handle_event-On}

-- The stored lists, and those that the operator holds, can be read and have 16-bit identities, and so
-- have the names.
pub record IsSound {E : Type 0} (read : E → String → Option String) (w : World E) : Type 0 where
  pub stored : AreLists (read w.store)
  pub held : AreSmall w.operator.map_label_to_identities w.operator.map_ewname_to_identity

-- What holds of a run that returned.
of_return :
    {S A : Type 0} (P : A → S → Type 0) (m : Outcome S A) (a : A) (s : S)
    → m ≡ done a s
    → Returns P m
    → P a s
of_return P m a s h p = subst (Returns P) h p

module _ {E : Type 0} (d : Driver E) (healthy : IsHealthy d) (lawful : IsLawful d) (random : ℕ → ℕ)
    (draws : ℕ) (range : GoMap String String → GoMap String String)
    (json : JsonCodec HostSecuritySpec) where
  Step-IsSound :
      {w w' : World E}
      → Step d lawful.read random draws range json w w'
      → IsSound lawful.read w
      → IsSound lawful.read w'
  unfolding destroy_kvms_operator etcd_delete
  Step-IsSound (workload w event o run) sound =
      let (stored, held) = of_return _ _ tt o run (
        handle_event-Sound d healthy lawful random draws event
          (operator_of d lawful.read random draws range json w) (sound.stored, sound.held)) in
      record { stored = stored; held = held }
  Step-IsSound (ending w o run) sound =
      let P = λ (_ : Unit {0}) (t : Operator E).
        AreLists (lawful.read t.etcd)
        × AreSmall t.map_label_to_identities t.map_ewname_to_identity in
      let (stored, held) =
        of_return P (destroy_kvms_operator d (operator_of d lawful.read random draws range json w))
          tt o run
          (
            delete-Listed d healthy lawful kvm_opr_label_to_identities w.store sound.stored,
            sound.held,
          ) in
      record { stored = stored; held = held }
  Step-IsSound (policy w event s run) sound = record {
    stored =
        subst Lists
          (sym (of_return _ _ tt s run (handle_event-On d healthy range w.store json event _ refl)))
          sound.stored;
    held = sound.held;
  }
    where
      Lists : E → Type 0
      Lists e = AreLists (lawful.read e)
  Step-IsSound (arrival w identity r s run) sound = record {
    stored =
        of_return _ _ r s run
          (register_agent_identity-Readable d healthy lawful identity _ sound.stored);
    held = sound.held;
  }
  Step-IsSound (departure w identity s run) sound = record {
    stored =
        of_return _ _ tt s run
          (update_etcd_label_to_identities_maps-Readable d healthy lawful identity _ sound.stored);
    held = sound.held;
  }
  Step-IsSound (request w kvm_name r s run) sound = record {
    stored =
        subst (λ e. AreLists (lawful.read e))
          (sym (of_return _ _ r s run (handle_cli_request-etcd d healthy kvm_name _))) sound.stored;
    held = sound.held;
  }
  Step-IsSound (outside w e same) sound = record {
    stored = AllLists-AreLists _ _ same sound.stored;
    held = sound.held;
  }

-- On a healthy store that keeps etcd's promises, in every run in which the operator handles events
-- of workloads or ends, and the service handles events of host policies, registers agents, sees
-- them leave or answers the command line, in any order, and beside which leases end or others write
-- elsewhere: from a world in which every stored list can be read and the lists, and the identities
-- of the names, have 16 bits, in the store and in the operator's memory, each world reached is such
-- a world.
pub Run-IsSound :
    {E : Type 0} (d : Driver E) (healthy : IsHealthy d) (lawful : IsLawful d) (random : ℕ → ℕ)
    (draws : ℕ) (range : GoMap String String → GoMap String String)
    (json : JsonCodec HostSecuritySpec) {w w' : World E}
    → IsSound lawful.read w
    → Run d lawful.read random draws range json w w'
    → IsSound lawful.read w'
Run-IsSound d healthy lawful random draws range json sound start = sound
Run-IsSound d healthy lawful random draws range json sound (next run step) =
    Step-IsSound d healthy lawful random draws range json step
      (Run-IsSound d healthy lawful random draws range json sound run)
