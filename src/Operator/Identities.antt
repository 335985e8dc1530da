-- ===== src/Operator/Identities.antt =====
-- GenerateExternalWorkloadIdentity (src/operator/core/crdHandler.go).
pub mod Issue
use mathlib.Core.Option.{get_or as value_or}
use kvm_service.Prelude.{
  ℕ, zero, suc, ◌+◌, ◌%◌, ◌^◌, String, Bool, true, false, lookup, insert, ◌<>◌, ◌==◌, nat_eq,
  string_eq,
}
use kvm_service.Constants.{kvm_opr_identity_to_ewname, kvm_opr_ewname_to_identity}
use kvm_service.Go.Outcome.{Outcome, Prog, done, exit, running, pure, modify, ◌>>=◌, ◌>>◌}
use kvm_service.Go.Strconv.{format_uint}
use kvm_service.Etcd.Driver.{Driver}
use kvm_service.Operator.State.{Operator, put_or_fatal}

-- `dm.MapIdentityToEWName[identity] == ""`
unfoldable pub is_free : {E : Type 0} → ℕ → Operator E → Bool
is_free identity s = value_or (lookup identity s.map_identity_to_ewname) "" == ""

-- The two maps of a new identity.
unfoldable pub enter : {E : Type 0} → ℕ → String → Operator E → Operator E
enter identity name s = record s {
  map_identity_to_ewname = insert identity name s.map_identity_to_ewname;
  map_ewname_to_identity = insert name identity s.map_ewname_to_identity;
}

module _ {E : Type 0} (d : Driver E) where
  unfoldable pub register : ℕ → String → Prog (Operator E) ℕ
  unfolding enter
  register identity name = do
    modify (enter identity name)
    put_or_fatal d (kvm_opr_identity_to_ewname <> format_uint identity) name
    put_or_fatal d (kvm_opr_ewname_to_identity <> name) (format_uint identity)
    pure identity

-- `random n` is the number of the n-th call of `rand.Uint32()`.
module _ {E : Type 0} (d : Driver E) (random : ℕ → ℕ) where
  -- The loop, with a bound on the rounds: past it the run is still going.
  unfoldable pub generate_external_workload_identity : ℕ → String → Prog (Operator E) ℕ
  generate_external_workload_identity zero name s = exit running s
  generate_external_workload_identity (suc rounds) name s =
      let identity = random s.drawn % 2 ^ 16 in
      let s' = record s { drawn = s.drawn + 1 } in
      elim (is_free identity s) [
        | true ↦ register d identity name s'
        | false ↦ generate_external_workload_identity rounds name s'
      ]
