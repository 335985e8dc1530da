-- ===== src/Service/Stream/Isolation/Lost.antt =====
-- How a policy is lost (SendPolicy of src/service/server/kvmserver.go): a stream of another agent takes
-- it.
use kvm_service.Prelude.{ℕ, true, ◌≡◌, ◌≢◌, nat_eq, All, contains, String}
use kvm_service.Go.Outcome.{Result}
use kvm_service.Types.Events.{K8sKubeArmorHostPolicyEvent, K8sKubeArmorHostPolicyEventWithIdentity}
use kvm_service.Service.Stream.{Wire}
use kvm_service.Service.Stream.Isolation.{Streams, Step, Run}

module _ (marshal : K8sKubeArmorHostPolicyEvent → Result String) (own : ℕ → ℕ) (i : ℕ) where
  -- A message for another agent than that of the stream.
  abbrev pub ForOthers : K8sKubeArmorHostPolicyEventWithIdentity → Type 0
  ForOthers m = m.identity ≢ own i

  -- The messages that wait are for others, and what the stream's agent got is this.
  abbrev Untold : Wire → Streams → Type 0
  Untold w s = All ForOthers s.channel × (s.wires i ≡ w)

-- A message is lost in a state: some step from it takes the message, and in every run from there in
-- which all further messages are for others, what the agent has got stays as it was.
pub record IsLost (marshal : K8sKubeArmorHostPolicyEvent → Result String) (own : ℕ → ℕ) (i : ℕ)
    (m : K8sKubeArmorHostPolicyEventWithIdentity) (s : Streams) : Type 1 where
  pub after : Streams
  pub taking : (P : K8sKubeArmorHostPolicyEventWithIdentity → Type 0) → Step marshal own P s after
  pub still_up : after.up ≡ true
  pub still_open : contains after.ended i ≡ contains s.ended i
  pub for_good :
      (t : Streams) → Run marshal own (ForOthers marshal own i) after t → t.wires i ≡ s.wires i
