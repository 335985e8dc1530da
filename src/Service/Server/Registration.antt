-- ===== src/Service/Server/Registration.antt =====
-- When an agent's registration is accepted, and what it then stores.
pub mod Racing
use mathlib.Core.Option.{get_or as value_or}
use kvm_service.Prelude.{
  String, [], Option, none, some, Bool, true, false, ◌≡◌, refl, ◌∙◌, inl, inr, ◌⊎◌, ◌<>◌, ◌==◌,
  string_eq, not, if◌then◌else◌, Bool-cases, GoMap,
}
use kvm_service.Constants.{kvm_svc_identiti_to_pod_ips, kvm_opr_identity_to_label}
use kvm_service.Go.Outcome.{done}
use kvm_service.Etcd.Driver.{Driver, IsLawful, IsHealthy}
use kvm_service.Etcd.Client.{response_map}
use kvm_service.Etcd.Laws.{lookup-etcd_get}
use kvm_service.Service.State.{Kvms}
use kvm_service.Service.Writes.{wrote, try_put_with_ttl-done, get_or_fatal-done, pairs}
use kvm_service.Service.Server.{
  is_empty, some_key_ends, refused, accepted, claim, is_identity_known, is_identity_serving,
  after_test, register_agent_identity,
}
use kvm_service.Service.Server.Reads.{
  IsBare, IsKnown, is_empty-IsBare, is_empty-IsTaken, key_ends-IsKnown, key_ends-not_IsKnown,
}

module _ {E : Type 0} (d : Driver E) (healthy : IsHealthy d) where
  abbrev pub claimed : String → Kvms E → Kvms E
  claimed identity s =
      wrote d (kvm_svc_identiti_to_pod_ips <> identity) s.server.pod_ip
        (some s.etcd_client.lease_response) s

  pub claim-done :
      (identity : String) (s : Kvms E)
      → claim d identity s ≡ done (accepted, none) (claimed identity s)
  unfolding claim
  claim-done identity s =
      rw (
        try_put_with_ttl-done d healthy (kvm_svc_identiti_to_pod_ips <> identity) s.server.pod_ip s)

  abbrev seats : String → Kvms E → Option (GoMap String String)
  seats identity s = response_map (pairs d healthy (kvm_svc_identiti_to_pod_ips <> identity) s.etcd)

  abbrev labelled : Kvms E → Option (GoMap String String)
  labelled s = response_map (pairs d healthy kvm_opr_identity_to_label s.etcd)

  -- The two tests of IsIdentityServing.
  pub serving-done :
      (identity : String) (s : Kvms E)
      → is_identity_serving d identity s
        ≡ done
            (if not (is_empty (seats identity s))
              then false
              else some_key_ends (value_or (labelled s) []) identity)
            s
  unfolding is_identity_serving is_identity_known
  serving-done identity s =
      rw (get_or_fatal-done d healthy (kvm_svc_identiti_to_pod_ips <> identity) s)
        (elim (Bool-cases (is_empty (seats identity s))) [
          | inl h ↦ rw (h, get_or_fatal-done d healthy kvm_opr_identity_to_label s)
          | inr h ↦ rw h
        ])

  register-serving :
      (identity : String) (s : Kvms E) (b : Bool)
      → is_identity_serving d identity s ≡ done b s
      → register_agent_identity d identity s
        ≡ (if b then done (accepted, none) (claimed identity s) else done (refused, none) s)
  unfolding register_agent_identity after_test
  register-serving identity s true h = rw (h, claim-done identity s)
  register-serving identity s false h = rw h

-- An identity is free to register when no agent has a key that begins with its own, and the operator
-- published a label of it.
abbrev pub MayRegister : (String → Option String) → String → Type 0
MayRegister read identity =
    IsBare read (kvm_svc_identiti_to_pod_ips <> identity)
    × IsKnown read kvm_opr_identity_to_label identity

-- The registration is accepted, and the contents are as before but for the pod's address under the
-- identity.
pub record IsAccepted {E : Type 0} (d : Driver E) (read : E → String → Option String)
    (identity : String) (s : Kvms E) : Type 0 where
  pub after : Kvms E
  pub run : register_agent_identity d identity s ≡ done (accepted, none) after
  pub contents :
      (j : String)
      → read after.etcd j ≡ (
          if kvm_svc_identiti_to_pod_ips <> identity == j
          then some s.server.pod_ip
          else read s.etcd j)

module _ {E : Type 0} (d : Driver E) (healthy : IsHealthy d) (lawful : IsLawful d) where
  -- The test of the registration alone.
  pub is_identity_serving-decides :
      (identity : String) (s : Kvms E)
      → (MayRegister (lawful.read s.etcd) identity
          × (is_identity_serving d identity s ≡ done true s))
        ⊎ ((MayRegister (lawful.read s.etcd) identity → ⊥)
            × (is_identity_serving d identity s ≡ done false s))
  is_identity_serving-decides identity s =
      let seat = kvm_svc_identiti_to_pod_ips <> identity in
      let answers =
        lookup-etcd_get d lawful seat s.etcd (pairs d healthy seat s.etcd)
          (healthy.get_ok seat s.etcd).1 in
      let label_answers =
        lookup-etcd_get d lawful kvm_opr_identity_to_label s.etcd
          (pairs d healthy kvm_opr_identity_to_label s.etcd)
          (healthy.get_ok kvm_opr_identity_to_label s.etcd).1 in
      let read = lawful.read s.etcd in
      elim (Bool-cases (is_empty (seats d healthy identity s))) [
        | inr taken ↦
            let t = is_empty-IsTaken read seat _ answers taken in
            inr (
              λ may. let q : read t.key ≡ none = may.0 t.key t.under in let r = t.stored in cc,
              serving-done d healthy identity s ∙ (rw taken refl),
            )
        | inl bare ↦
            elim (Bool-cases (some_key_ends (value_or (labelled d healthy s) []) identity)) [
              | inr unknown ↦ inr (
                λ may.
                    key_ends-not_IsKnown read kvm_opr_identity_to_label _ label_answers identity
                      unknown may.1,
                serving-done d healthy identity s ∙ (rw (bare, unknown) refl),
              )
              | inl known ↦ inl (
                (
                  is_empty-IsBare read seat _ answers bare,
                  key_ends-IsKnown read kvm_opr_identity_to_label _ label_answers identity known,
                ),
                serving-done d healthy identity s ∙ (rw (bare, known) refl),
              )
            ]
      ]

  -- On a healthy store that keeps etcd's promises, a registration is accepted and stores the pod's
  -- address exactly when no stored address key begins with the identity's own and some stored label
  -- key ends with the identity; otherwise it is refused and nothing changes.
  pub register_agent_identity-decides :
      (identity : String) (s : Kvms E)
      → (MayRegister (lawful.read s.etcd) identity × IsAccepted d lawful.read identity s)
        ⊎ ((MayRegister (lawful.read s.etcd) identity → ⊥)
            × (register_agent_identity d identity s ≡ done (refused, none) s))
  register_agent_identity-decides identity s = elim (is_identity_serving-decides identity s) [
    | inr (never, shut) ↦ inr (never, register-serving d healthy identity s false shut)
    | inl (may, serves) ↦ inl (
      may,
      record {
        after = claimed d healthy identity s;
        run = register-serving d healthy identity s true serves;
        contents = λ j.
            lawful.put-read (kvm_svc_identiti_to_pod_ips <> identity) s.server.pod_ip
              (some s.etcd_client.lease_response) s.etcd j
              (healthy.put_ok _ s.server.pod_ip (some s.etcd_client.lease_response) s.etcd);
      },
    )
  ]
