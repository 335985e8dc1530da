-- ===== src/Service/Server/Registration/Racing.antt =====
-- Two registrations of one identity (RegisterAgentIdentity): one after the other, and with the tests of
-- both before the writes of both. The server answers each call in a routine of its own, and nothing
-- holds the test and the write together.
use kvm_service.Prelude.{
  String, some, ◌≡◌, refl, ◌∙◌, inl, inr, ◌<>◌, string_eq, starts_with_refl, ==_refl,
}
use kvm_service.Constants.{kvm_svc_identiti_to_pod_ips}
use kvm_service.Go.Outcome.{Prog, Ensures, pure, ◌>>=◌}
use kvm_service.Etcd.Driver.{Driver, IsLawful, IsHealthy}
use kvm_service.Service.State.{Kvms}
use kvm_service.Service.Server.{
  Status, refused, accepted, is_identity_serving, after_test, register_agent_identity,
}
use kvm_service.Service.Server.Registration.{
  MayRegister, is_identity_serving-decides, register_agent_identity-decides, claim-done, claimed,
}

module _ {E : Type 0} (d : Driver E) where
  -- Both calls test before either writes.
  unfoldable pub register_at_once : String → Prog (Kvms E) (Status × Status)
  register_at_once identity = do
    first ← is_identity_serving d identity
    second ← is_identity_serving d identity
    one ← after_test d identity first
    two ← after_test d identity second
    pure (one.0, two.0)

  -- The second call starts when the first has ended.
  unfoldable pub register_in_turn : String → Prog (Kvms E) (Status × Status)
  register_in_turn identity = do
    one ← register_agent_identity d identity
    two ← register_agent_identity d identity
    pure (one.0, two.0)

module _ {E : Type 0} (d : Driver E) (healthy : IsHealthy d) (lawful : IsLawful d)
    (identity : String) (s : Kvms E) (may : MayRegister (lawful.read s.etcd) identity) where
  at_once-accepted : Ensures (λ r _. r ≡ (accepted, accepted)) (register_at_once d identity s)
  unfolding register_at_once after_test
  at_once-accepted = elim (is_identity_serving-decides d healthy lawful identity s) [
    | inr (never, shut) ↦ absurd (never may)
    | inl (_, serves) ↦
        rw
          (
            serves,
            serves,
            claim-done d healthy identity s,
            claim-done d healthy identity (claimed d healthy identity s),
          )
          refl
  ]

  in_turn-refused : Ensures (λ r _. r ≡ (accepted, refused)) (register_in_turn d identity s)
  unfolding register_in_turn
  in_turn-refused = elim (register_agent_identity-decides d healthy lawful identity s) [
    | inr (never, shut) ↦ absurd (never may)
    | inl (_, a) ↦ elim (register_agent_identity-decides d healthy lawful identity a.after) [
      | inr (never, shut) ↦ rw (a.run, shut) refl
      | inl (again, _) ↦
          let seat = kvm_svc_identiti_to_pod_ips <> identity in
          let taken : lawful.read a.after.etcd seat ≡ some s.server.pod_ip =
            a.contents seat ∙ (rw (==_refl seat) refl) in
          let free = again.0 seat (starts_with_refl seat) in cc
    ]
  ]

-- On a healthy store that keeps etcd's promises, and for an identity that may register, two
-- registrations one after the other have the first accepted and the second refused, while two whose
-- tests both come before the writes are both accepted.
pub register_at_once-accepted :
    {E : Type 0} (d : Driver E) (healthy : IsHealthy d) (lawful : IsLawful d) (identity : String)
    (s : Kvms E)
    → MayRegister (lawful.read s.etcd) identity
    → Ensures (λ r _. r ≡ (accepted, accepted)) (register_at_once d identity s)
      × Ensures (λ r _. r ≡ (accepted, refused)) (register_in_turn d identity s)
register_at_once-accepted d healthy lawful identity s may = (
  at_once-accepted d healthy lawful identity s may,
  in_turn-refused d healthy lawful identity s may,
)
