-- ===== src/Service/Server/Cli.antt =====
-- What the command line gets for the name of a virtual machine.
use mathlib.Core.Option.{get_or as value_or}
use kvm_service.Prelude.{
  ℕ, ◌+◌, ◌%◌, ◌^◌, ◌<◌, String, Option, nat_eq, true, ◌≡◌, ◌≢◌, refl, ◌∙◌, ◌⊎◌, inl, inr, ◌<>◌,
  string_eq, ==_of_ne, ==_cases,
}
use kvm_service.Constants.{kvm_opr_ewname_to_identity}
use kvm_service.Go.Outcome.{Outcome, done, Ensures}
use kvm_service.Go.Outcome.Rules.{Ensures-weaken}
use kvm_service.Go.Strconv.{format_uint}
use kvm_service.Go.Strconv.Digits.{format_uint-nonempty}
use kvm_service.Operator.State.{Operator}
use kvm_service.Operator.Identities.{is_free, generate_external_workload_identity}
use kvm_service.Operator.Identities.Issue.{IsIssued, generate-IsIssued}
use kvm_service.GenScript.{generate_ew_installation_script}
use kvm_service.Etcd.Driver.{Driver, IsLawful, IsHealthy}
use kvm_service.Service.State.{Kvms}
use kvm_service.Service.Writes.{get_or_fatal-done}
use kvm_service.Service.Server.{
  ResponseStatus, accepted, refused, answer, reply_for, handle_cli_request,
}
use kvm_service.Service.Server.Departure.{read_stored}

-- The reply with the script of the identity, and the reply without one.
abbrev pub script_reply : {E : Type 0} → String → String → Kvms E → Outcome (Kvms E) ResponseStatus
script_reply kvm_name identity s =
    let (script, g) = generate_ew_installation_script kvm_name identity s.gen_script in
    done (record { script_data = script; status_msg = "Success"; status = accepted })
      (record s { gen_script = g })

abbrev pub unknown_reply : {E : Type 0} → Kvms E → Outcome (Kvms E) ResponseStatus
unknown_reply s =
    done
      (record {
        script_data = "";
        status_msg = "Error: KVM Name is not present in DB";
        status = refused;
      })
      s

-- The identity that the store gives the name.
abbrev pub identity_of : (String → Option String) → String → String
identity_of read kvm_name = value_or (read (kvm_opr_ewname_to_identity <> kvm_name)) ""

module _ {E : Type 0} (d : Driver E) (healthy : IsHealthy d) (lawful : IsLawful d) where
  cli_reply :
      (kvm_name : String) (s : Kvms E)
      → handle_cli_request d kvm_name s
        ≡ reply_for d kvm_name (identity_of (lawful.read s.etcd) kvm_name) s
  unfolding handle_cli_request
  cli_reply kvm_name s =
      rw (get_or_fatal-done d healthy (kvm_opr_ewname_to_identity <> kvm_name) s)
        (rw (read_stored d healthy lawful (kvm_opr_ewname_to_identity <> kvm_name) s) refl)

  reply_for-script :
      (kvm_name identity : String) (s : Kvms E)
      → identity ≢ ""
      → reply_for d kvm_name identity s ≡ script_reply kvm_name identity s
  unfolding reply_for answer
  reply_for-script kvm_name identity s n = rw (==_of_ne identity "" n) refl

  -- On a healthy store that keeps etcd's promises, a request for a name is answered by the script
  -- of the identity stored under exactly that name, when there is one that is not empty, and by an
  -- error without a change otherwise.
  pub handle_cli_request-answers :
      (kvm_name : String) (s : Kvms E)
      → ((identity_of (lawful.read s.etcd) kvm_name ≢ "")
          × (handle_cli_request d kvm_name s
              ≡ script_reply kvm_name (identity_of (lawful.read s.etcd) kvm_name) s))
        ⊎ ((identity_of (lawful.read s.etcd) kvm_name ≡ "")
            × (handle_cli_request d kvm_name s ≡ unknown_reply s))
  unfolding reply_for
  handle_cli_request-answers kvm_name s =
      elim (==_cases (identity_of (lawful.read s.etcd) kvm_name) "") [
        | inl e ↦ inr (e, cli_reply kvm_name s ∙ (rw (e, reply_for) refl))
        | inr n ↦ inl (n, cli_reply kvm_name s ∙ reply_for-script kvm_name _ s n)
      ]

  -- On one healthy store that keeps etcd's promises, and where a number drawn within the rounds is
  -- free, the operator issues an identity for a workload, and a request of the command line for the
  -- workload's name, on the store as the operator left it, is answered by the script of this
  -- identity.
  pub generate-handle_cli_request :
      (random : ℕ → ℕ) (rounds k : ℕ) (name : String) (o : Operator E) (s : Kvms E)
      → k < rounds
      → is_free (random (o.drawn + k) % 2 ^ 16) o ≡ true
      → Ensures
          (λ identity o'.
            handle_cli_request d name (record s { etcd = o'.etcd })
            ≡ script_reply name (format_uint identity) (record s { etcd = o'.etcd }))
          (generate_external_workload_identity d random rounds name o)
  generate-handle_cli_request random rounds k name o s h f =
      Ensures-weaken (IsIssued lawful.read o name) _
        (generate_external_workload_identity d random rounds name o)
        (generate-IsIssued d healthy lawful random rounds k name o h f)
        (λ identity o' issued.
          cli_reply name (record s { etcd = o'.etcd })
          ∙ (rw issued.stored_identity (
              reply_for-script name (format_uint identity) (record s { etcd = o'.etcd })
                (format_uint-nonempty identity))))
