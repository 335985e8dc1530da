-- ===== src/Service/State.antt =====
-- The state of the service process (src/service/core/kvmService.go, src/service/server/server.go).
-- `sent` holds what was sent on PolicyChan and received, in order; whether a stream receives a message is
-- told by the channel. A daemon whose etcd client is nil is none.
-- Left out are the fields that no method reads or writes, and the listener of the gRPC library.
use kvm_service.Prelude.{
  ℕ, Bool, length, if◌then◌else◌, ◌%◌, ◌^◌, String, List, [], ◌∷◌, ◌++◌, Option, none, some, GoMap,
}
use kvm_service.Go.Outcome.{
  Prog, Outcome, done, exit, fatal, panicked, blocked, Result, ok, err, fatal_on,
}
use kvm_service.Go.Strconv.{format_uint}
use kvm_service.GenScript.{GenScript}
use kvm_service.Types.Events.{K8sKubeArmorHostPolicyEventWithIdentity}
use kvm_service.Etcd.Driver.{Driver}
use kvm_service.Etcd.Client.{EtcdClient, new_etcd_client, etcd_put, etcd_put_with_ttl, etcd_delete}

-- The variables of the server package.
pub record Server : Type 0 where
  pub pod_ip : String
  pub clusterport : String
  pub cluster_ip : String

-- PolicyChan has no buffer: a send waits until a stream receives. `made receives` tells of each message,
-- by its place in the order of the sends, whether a stream will receive it.
pub data PolicyChan : Type 0 where
  -- nil, before InitServer
  unmade : PolicyChan
  made : (ℕ → Bool) → PolicyChan
  -- after `close(ks.PolicyChan)`
  shut : PolicyChan

pub record Kvms (E : Type 0) : Type 0 where
  pub etcd : E
  pub etcd_client : EtcdClient
  pub server : Server
  -- nil, or the labels gathered so far
  pub etcd_ew_labels : Option (List String)
  pub map_label_to_identities : GoMap String (List ℕ)
  pub cluster_port : ℕ
  pub clusterip_address : String
  pub gen_script : GenScript
  pub policy_chan : PolicyChan
  pub sent : List K8sKubeArmorHostPolicyEventWithIdentity

-- NewServerInit sets the package's variables.
unfoldable pub new_server_init : String → String → String → Server
new_server_init ip_address cluster_ip_address port_val = record {
  pod_ip = ip_address;
  clusterport = port_val;
  cluster_ip = cluster_ip_address;
}

module _ {E : Type 0} (d : Driver E) where
  -- NewKVMSDaemon. The local address is that of a UDP socket, whose dial may fail.
  unfoldable pub new_kvms_daemon :
      ℕ → String → String → Result String → GenScript → E → Outcome E (Option (Kvms E))
  unfolding new_server_init
  new_kvms_daemon port ip_address endpoint local_addr script e =
      let (client, e') = new_etcd_client d endpoint e in
      elim local_addr [
        | err m ↦ exit fatal e'
        | ok pod_ip ↦ elim client [
          | none ↦ done none e'
          | some cli ↦
              done
                (some (record {
                  etcd = e';
                  etcd_client = cli;
                  server = new_server_init pod_ip ip_address (format_uint (port % 2 ^ 16));
                  etcd_ew_labels = some [];
                  map_label_to_identities = [];
                  cluster_port = port % 2 ^ 16;
                  clusterip_address = ip_address;
                  gen_script = script;
                  policy_chan = unmade;
                  sent = [];
                }))
                e'
        ]
      ]

  -- EtcdPut and `if err != nil { log.Fatal(err) }`
  unfoldable pub put_or_fatal : String → String → Prog (Kvms E) (Unit {0})
  put_or_fatal key value s =
      let (r, e) = etcd_put d s.etcd_client key value s.etcd in fatal_on r (record s { etcd = e })

  -- EtcdDelete, with its error.
  unfoldable pub try_delete : String → Prog (Kvms E) (Result (Unit {0}))
  try_delete key s =
      let (r, e) = etcd_delete d s.etcd_client key s.etcd in done r (record s { etcd = e })

  -- EtcdPutWithTTL, with its error.
  unfoldable pub try_put_with_ttl : String → String → Prog (Kvms E) (Result (Unit {0}))
  try_put_with_ttl key value s =
      let (r, e) = etcd_put_with_ttl d s.etcd_client key value s.etcd in
      done r (record s { etcd = e })

-- The send on a channel: a send on a closed one panics.
unfoldable pub send_on :
    {E : Type 0} → PolicyChan → K8sKubeArmorHostPolicyEventWithIdentity → Prog (Kvms E) (Unit {0})
send_on unmade event s = exit blocked s
send_on shut event s = exit panicked s
send_on (made receives) event s =
    if receives (length s.sent)
    then done tt (record s { sent = s.sent ++ event ∷ [] })
    else exit blocked s

-- `PolicyChan <- event`
unfoldable pub send :
    {E : Type 0} → K8sKubeArmorHostPolicyEventWithIdentity → Prog (Kvms E) (Unit {0})
unfolding send_on
send event s = send_on s.policy_chan event s

-- `PolicyChan = make(chan …)` of InitServer. What the streams will receive is an argument.
unfoldable pub make_policy_chan : {E : Type 0} → (ℕ → Bool) → Kvms E → Kvms E
make_policy_chan receives s = record s { policy_chan = made receives }

-- What KVMSDaemon does with the channel when the signal comes: closing a nil channel panics.
unfoldable pub close_policy_chan : {E : Type 0} → Prog (Kvms E) (Unit {0})
close_policy_chan s = elim s.policy_chan [
  | unmade ↦ exit panicked s
  | shut ↦ exit panicked s
  | made _ ↦ done tt (record s { policy_chan = shut })
]
