-- ===== src/Service/Stream.antt =====
-- The policy streams (SendPolicy of src/service/server/kvmserver.go): every connected agent has a
-- stream, and all streams receive from the one channel. Which stream takes an event is not
-- determined: a step for each choice.
pub mod Isolation
pub mod Closing
use kvm_service.Prelude.{
  ℕ, String, List, [], ◌∷◌, ◌++◌, Option, none, some, Bool, true, false, ◌≡◌, ◌==◌, nat_eq,
  if◌then◌else◌, contains,
}
use kvm_service.Go.Outcome.{Outcome, done, exit, panicked, Result, ok, err, Prog}
use kvm_service.Types.Events.{K8sKubeArmorHostPolicyEvent, K8sKubeArmorHostPolicyEventWithIdentity}

-- What the stream's agent has been sent, the last first.
pub record Wire : Type 0 where
  pub written : List String

-- How the gRPC stream of an agent answers: `Send` may fail, and `Recv` gives a status or an error.
pub record Agent : Type 0 where
  pub send_fails : Bool
  pub status : Option ℕ

-- Whether the stream goes on after an event.
pub data Next : Type 0 where
  again closed : Next

-- `stream.Send`
abbrev pub write : Agent → String → Wire → Wire
write agent policy w = if agent.send_fails then w else record w { written = policy ∷ w.written }

-- `response.Status` of a nil response is a nil dereference.
abbrev read_status : Agent → Prog Wire Next
read_status agent w = elim agent.status [ none ↦ exit panicked w | some n ↦ done again w ]

-- What a stream does with an event that it has received. An event for another identity is dropped;
-- a policy that cannot be marshalled is only logged.
unfoldable pub receive :
    (K8sKubeArmorHostPolicyEvent → Result String)
    → ℕ
    → Agent
    → K8sKubeArmorHostPolicyEventWithIdentity
    → Prog Wire Next
receive marshal own agent event w = elim (event.identity == own) [
  | false ↦ done again w
  | true ↦ elim event.close_connection [
    | true ↦ done closed w
    | false ↦ elim (marshal event.event) [
      | err m ↦ done again w
      | ok policy ↦ read_status agent (write agent policy w)
    ]
  ]
]
