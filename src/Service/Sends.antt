-- ===== src/Service/Sends.antt =====
-- What a send on PolicyChan does (src/service/server/server.go), when a stream receives and when none
-- does.
use kvm_service.Prelude.{ℕ, List, [], ◌∷◌, ◌++◌, Bool, true, ◌≡◌, refl, length}
use kvm_service.Go.Outcome.{Returns, done}
use kvm_service.Go.Outcome.Rules.{Returns-if}
use kvm_service.Types.Events.{K8sKubeArmorHostPolicyEventWithIdentity}
use kvm_service.Service.State.{Kvms, PolicyChan, unmade, made, shut, send_on, send}

-- The channel is made, and every message that is sent is received by some stream.
pub record IsReceived (c : PolicyChan) : Type 0 where
  pub receives : ℕ → Bool
  pub is_made : c ≡ made receives
  pub all : (n : ℕ) → receives n ≡ true

-- The state with more messages received.
abbrev pub sending : {E : Type 0} → List K8sKubeArmorHostPolicyEventWithIdentity → Kvms E → Kvms E
sending messages s = record s { sent = s.sent ++ messages }

-- A send that returns has handed over its message.
Returns-send_on :
    {E : Type 0} (Q : Kvms E → Type 0) (c : PolicyChan)
    (m : K8sKubeArmorHostPolicyEventWithIdentity) (s : Kvms E)
    → Q (sending (m ∷ []) s)
    → Returns (λ _ t. Q t) (send_on c m s)
unfolding send_on
Returns-send_on Q unmade m s q = tt
Returns-send_on Q shut m s q = tt
Returns-send_on Q (made receives) m s q =
    Returns-if (λ _ t. Q t) (receives (length s.sent)) _ _ (λ _. q) (λ _. tt)

pub Returns-send :
    {E : Type 0} (Q : Kvms E → Type 0) (m : K8sKubeArmorHostPolicyEventWithIdentity) (s : Kvms E)
    → Q (sending (m ∷ []) s)
    → Returns (λ _ t. Q t) (send m s)
unfolding send
Returns-send Q m s q = Returns-send_on Q s.policy_chan m s q

pub send-done :
    {E : Type 0} (receives : ℕ → Bool) (m : K8sKubeArmorHostPolicyEventWithIdentity) (s : Kvms E)
    → s.policy_chan ≡ made receives
    → receives (length s.sent) ≡ true
    → send m s ≡ done tt (sending (m ∷ []) s)
unfolding send send_on
send-done receives m s h r = rw (h, send_on) (rw r refl)

pub send-received :
    {E : Type 0} (m : K8sKubeArmorHostPolicyEventWithIdentity) (s : Kvms E)
    → IsReceived s.policy_chan
    → send m s ≡ done tt (sending (m ∷ []) s)
send-received m s r = send-done r.receives m s r.is_made (r.all (length s.sent))
