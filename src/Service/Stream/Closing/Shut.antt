-- ===== src/Service/Stream/Closing/Shut.antt =====
-- The end of a stream (src/service/server/kvmserver.go) after KVMSDaemon (src/service/core/kvmService.go)
-- has closed the policy channel and before its process ends.
use kvm_service.Prelude.{
  ℕ, ◌<◌, ◌^◌, String, List, Option, some, none, true, Bool, ◌≡◌, ◌≢◌, refl, ap, All, length,
  get_or, starts_with, inl, inr,
}
use kvm_service.Go.Outcome.{Outcome, Outcome-cases, done, exit, panicked, continue}
use kvm_service.Go.Outcome.Rules.{Ensures-both}
use kvm_service.Go.Json.{marshal_ids}
use kvm_service.Etcd.Driver.{Driver, IsLawful, IsHealthy}
use kvm_service.Service.State.{
  Kvms, PolicyChan, unmade, made, shut, send, send_on, close_policy_chan,
}
use kvm_service.Service.Server.{update_etcd_label_to_identities_maps}
use kvm_service.Service.Server.Departure.{label_key, list_key}
use kvm_service.Service.Server.Departure.Leaving.{
  HasLeft, update_etcd_label_to_identities_maps-HasLeft,
}
use kvm_service.Service.Stream.Closing.{close_event, leave_stream}
use kvm_service.Service.Stream.Closing.Ended.{update-KeepsSent}

abbrev closed : {E : Type 0} → Kvms E → Kvms E
closed s = record s { policy_chan = shut }

close-done :
    {E : Type 0} (receives : ℕ → Bool) (s : Kvms E)
    → s.policy_chan ≡ made receives
    → close_policy_chan s ≡ done tt (closed s)
unfolding close_policy_chan
close-done {E = E} receives s h =
    ap
      (λ (c : PolicyChan). elim c as (λ _. Outcome (Kvms E) (Unit {0})) [
        | unmade ↦ exit panicked s
        | shut ↦ exit panicked s
        | made _ ↦ done tt (closed s)
      ])
      h

-- The agent has left the store, and then the process panics, with nothing sent.
pub record IsCutOff {E : Type 0} (read : E → String → Option String) (identity : ℕ) (label : String)
    (arr : List ℕ) (s : Kvms E) (o : Outcome (Kvms E) (Unit {0})) : Type 0 where
  pub after : Kvms E
  pub panics : o ≡ exit panicked after
  pub left : HasLeft (read s.etcd) (read after.etcd) identity label arr
  pub silent : after.sent ≡ s.sent

-- On a healthy store that keeps etcd's promises, where the policy channel is made, the identity is
-- not 0, the stored list of its label names it once and no other key begins with that list's key:
-- when the channel is closed at the signal and then an agent's stream ends, every address whose key
-- begins with the key of the agent's own is deleted, the stored list holds the other identities and
-- no more, each entry under a key that is neither is as before, and the process panics with no
-- message sent.
pub close_policy_chan-IsCutOff :
    {E : Type 0} (d : Driver E) (healthy : IsHealthy d) (lawful : IsLawful d) (identity : ℕ)
    (label : String) (s : Kvms E) (arr : List ℕ) (p : ℕ)
    → lawful.read s.etcd (label_key identity) ≡ some label
    → lawful.read s.etcd (list_key label) ≡ some (marshal_ids (some arr))
    → ((j : String)
        → starts_with j (list_key label) ≡ true
        → j ≢ list_key label
        → lawful.read s.etcd j ≡ none)
    → All (λ n. n < 2 ^ 16) arr
    → identity ≢ 0
    → p < length arr
    → get_or arr p 0 ≡ identity
    → ((k : ℕ) → k < length arr → k ≢ p → get_or arr k 0 ≢ identity)
    → (receives : ℕ → Bool) → s.policy_chan ≡ made receives
    → IsCutOff lawful.read identity label arr s
        (continue (close_policy_chan s) (λ _. leave_stream d identity))
unfolding leave_stream send send_on
close_policy_chan-IsCutOff d healthy lawful identity label s arr p labelled listed alone small
      nonzero inside found once receives is_made =
    let run = update_etcd_label_to_identities_maps d identity (closed s) in
    let both =
      Ensures-both _ _ run
        (update_etcd_label_to_identities_maps-HasLeft d healthy lawful identity label (closed s) arr
          p labelled listed alone small nonzero inside found once)
        (update-KeepsSent d s.sent shut identity (closed s) (refl, refl)) in
    elim (Outcome-cases run) [
      | inr (e, t, crashed) ↦ absurd (rw crashed at both)
      | inl (u, t, returned) ↦
          let (left, (same, is_shut)) : HasLeft (lawful.read s.etcd) (lawful.read t.etcd) identity
                label arr
              × ((t.sent ≡ s.sent) × (t.policy_chan ≡ shut)) =
            rw returned at both in
          record {
            after = t;
            panics =
                rw (close-done receives s is_made, returned)
                  (ap (λ c. send_on c (close_event identity) t) is_shut);
            left = left;
            silent = same;
          }
    ]
