-- ===== src/Tests/StreamRuns.antt =====
-- Runs of the policy streams (src/service/server/kvmserver.go), of the identities of agents, and of
-- the end of a stream.
use kvm_service.Go.Outcome.{continue}
use kvm_service.Service.State.{close_policy_chan}
use kvm_service.Service.Stream.Closing.Shut.{IsCutOff, close_policy_chan-IsCutOff}
use kvm_service.Prelude.{
  ℕ, String, [], ◌∷◌, some, true, false, ◌≡◌, refl, All, contains, nat_eq, string_eq, arith,
}
use kvm_service.Go.Outcome.{Result, ok}
use kvm_service.Types.Events.{K8sKubeArmorHostPolicyEvent, K8sKubeArmorHostPolicyEventWithIdentity}
use kvm_service.Service.Stream.{Agent}
use kvm_service.Service.Stream.Isolation.{
  Streams, take_next, Run, stay, step, IsSafe, taken, Run-IsSafe,
}
use kvm_service.Tests.ServiceRuns.{
  listed, service, store, only_second, store_label, store_list, store_alone,
}
use kvm_service.Tests.CoreRuns.{event}
use kvm_service.Go.Outcome.{Ensures}
use kvm_service.Go.Strconv.{format_uint}
use kvm_service.Etcd.Memory.{memory, memory-IsLawful, memory-IsHealthy}
use kvm_service.Service.Server.{get_identity_from_context}
use kvm_service.Service.Server.Identity.{get_identity_from_context-format_uint}
use kvm_service.Service.Stream.Closing.{close_event, leave_stream}
use kvm_service.Service.Stream.Closing.Ended.{
  HasLeftStream, IsClosed, leave_stream-HasLeftStream, Run-IsClosed,
}

get_identity_from_context-format_uint_example :
    get_identity_from_context (some (format_uint 65535 ∷ [])) ≡ 65535
get_identity_from_context-format_uint_example =
    get_identity_from_context-format_uint 65535 [] (omega arith)

abbrev message_for : ℕ → K8sKubeArmorHostPolicyEventWithIdentity
message_for identity = record { event = event; identity = identity; close_connection = false }

abbrev marshal : K8sKubeArmorHostPolicyEvent → Result String
marshal e = ok e.object.metadata.name

-- Stream i serves identity i.
abbrev own : ℕ → ℕ
own i = i

abbrev streams : Streams
streams = record {
  channel = message_for 5 ∷ [];
  wires = λ i. record { written = [] };
  ended = [];
  up = true;
}

abbrev agent : Agent
agent = record { send_fails = false; status = some 0 }

-- The messages for identity 5.
abbrev For5 : K8sKubeArmorHostPolicyEventWithIdentity → Type 0
For5 m = m.identity ≡ 5

one_step : Run marshal own For5 streams (taken marshal own 5 agent (message_for 5) [] streams)
unfolding contains
one_step =
    step streams streams _ (stay streams)
      (take_next 5 agent (message_for 5) [] streams refl refl refl)

Run-IsSafe_example : IsSafe marshal own For5 (taken marshal own 5 agent (message_for 5) [] streams)
Run-IsSafe_example =
    Run-IsSafe marshal own For5 streams (taken marshal own 5 agent (message_for 5) [] streams)
      one_step (refl, tt) (λ i. refl)

leave_stream-HasLeftStream_example :
    Ensures
      (λ _ t.
        HasLeftStream
          (memory-IsLawful.read store)
          (memory-IsLawful.read t.etcd)
          5
          "a=b"
          listed
          []
          t.sent)
      (leave_stream memory 5 (service store))
unfolding memory-IsLawful
leave_stream-HasLeftStream_example =
    leave_stream-HasLeftStream memory memory-IsHealthy memory-IsLawful 5 "a=b" (service store)
      listed 1 store_label store_list store_alone (omega arith, (omega arith, (omega arith, tt)))
      (λ e. absurd (omega arith)) (omega arith) refl only_second (λ _. true) refl refl

-- The stream of identity 5 takes the message that closes it.
abbrev closing : Streams
closing = record streams { channel = close_event 5 ∷ [] }

closing_run : Run marshal own For5 closing (taken marshal own 5 agent (close_event 5) [] closing)
unfolding contains
closing_run =
    step closing closing _ (stay closing)
      (take_next 5 agent (close_event 5) [] closing refl refl refl)

Run-IsClosed_example :
    All (IsClosed marshal own For5) (taken marshal own 5 agent (close_event 5) [] closing).ended
Run-IsClosed_example =
    Run-IsClosed marshal own For5 closing (taken marshal own 5 agent (close_event 5) [] closing)
      closing_run (refl, tt) refl

close_policy_chan-IsCutOff_example :
    IsCutOff memory-IsLawful.read 5 "a=b" listed
      (service store)
      (continue (close_policy_chan (service store)) (λ _. leave_stream memory 5))
unfolding memory-IsLawful
close_policy_chan-IsCutOff_example =
    close_policy_chan-IsCutOff memory memory-IsHealthy memory-IsLawful 5 "a=b" (service store)
      listed 1 store_label store_list store_alone (omega arith, (omega arith, (omega arith, tt)))
      (λ e. absurd (omega arith)) (omega arith) refl only_second (λ _. true) refl
