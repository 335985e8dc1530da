-- ===== src/Operator/State.antt =====
-- The operator's state (src/operator/core/kvmOperator.go), and its writes to etcd. A daemon whose
-- etcd client is nil is none: its first write dereferences nil. Left out are the fields that no
-- method reads or writes.
use kvm_service.Prelude.{ℕ, String, List, [], Option, none, some, GoMap}
use kvm_service.Constants.{kvm_opr_label_to_identities}
use kvm_service.Go.Outcome.{Prog, fatal_on, done}
use kvm_service.Types.Workloads.{ExternalWorkloadSecurityPolicy}
use kvm_service.Etcd.Driver.{Driver}
use kvm_service.Etcd.Client.{EtcdClient, new_etcd_client, etcd_put, etcd_delete}

pub record Operator (E : Type 0) : Type 0 where
  -- the cluster's store, and the client's lease
  pub etcd : E
  pub etcd_client : EtcdClient
  pub external_workload_security_policies : List ExternalWorkloadSecurityPolicy
  pub map_identity_to_ewname : GoMap ℕ String
  pub map_ewname_to_identity : GoMap String ℕ
  pub map_identity_to_label : GoMap ℕ String
  pub map_label_to_identities : GoMap String (List ℕ)
  -- how many numbers math/rand has given
  pub drawn : ℕ

module _ {E : Type 0} (d : Driver E) where
  unfoldable pub new_kvms_operator_daemon : String → E → Option (Operator E) × E
  new_kvms_operator_daemon endpoint e =
      let (client, e') = new_etcd_client d endpoint e in
      elim client [
        | none ↦ (none, e')
        | some cli ↦ (
          some (record {
            etcd = e';
            etcd_client = cli;
            external_workload_security_policies = [];
            map_identity_to_ewname = [];
            map_ewname_to_identity = [];
            map_identity_to_label = [];
            map_label_to_identities = [];
            drawn = 0;
          }),
          e',
        )
      ]

  -- `err := dm.EtcdClient.EtcdPut(…); if err != nil { log.Fatal(err) }`
  unfoldable pub put_or_fatal : String → String → Prog (Operator E) (Unit {0})
  put_or_fatal key value s =
      let (r, e) = etcd_put d s.etcd_client key value s.etcd in fatal_on r (record s { etcd = e })

  -- The same with EtcdDelete.
  unfoldable pub delete_or_fatal : String → Prog (Operator E) (Unit {0})
  delete_or_fatal key s =
      let (r, e) = etcd_delete d s.etcd_client key s.etcd in fatal_on r (record s { etcd = e })

  -- DestroyKVMSOperator drops the error.
  unfoldable pub destroy_kvms_operator : Prog (Operator E) (Unit {0})
  destroy_kvms_operator s =
      let (r, e) = etcd_delete d s.etcd_client kvm_opr_label_to_identities s.etcd in
      done tt (record s { etcd = e })
