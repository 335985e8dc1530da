-- ===== src/Etcd/Client.antt =====
-- The methods of EtcdClient. The connection is the driver, so the client holds its lease; a read
-- that finds nothing is a nil map or a nil response, which is none.
use kvm_service.Prelude.{ℕ, String, [], ◌∷◌, Option, none, some, GoMap, insert, string_eq}
use kvm_service.Constants.{etcd_client_ttl}
use kvm_service.Go.Outcome.{Result, ok, err}
use kvm_service.Etcd.Driver.{Driver}

pub record EtcdClient : Type 0 where
  pub lease_response : ℕ

-- `keyValuePair[string(ev.Key)] = string(ev.Value)` over the response
unfoldable pub key_value_pairs : GoMap String String → GoMap String String → GoMap String String
key_value_pairs pairs [] = pairs
key_value_pairs pairs ((k, v) ∷ kvs) = key_value_pairs (insert k v pairs) kvs

-- The response of EtcdGetRaw: nil without a pair.
unfoldable pub raw_response : GoMap String String → Option (GoMap String String)
raw_response [] = none
raw_response (kv ∷ kvs) = some (kv ∷ kvs)

-- The map of EtcdGet: nil without a pair.
unfoldable pub response_map : GoMap String String → Option (GoMap String String)
unfolding key_value_pairs
response_map [] = none
response_map (kv ∷ kvs) = some (key_value_pairs [] (kv ∷ kvs))

module _ {E : Type 0} (d : Driver E) where
  -- A nil client, none, where the connection or the lease fails.
  unfoldable pub new_etcd_client : String → E → Option EtcdClient × E
  new_etcd_client endpoint e = elim (d.connect endpoint e) [
    | err m ↦ (none, e)
    | ok _ ↦
        let (granted, e') = d.grant etcd_client_ttl e in
        elim granted [
          | err m ↦ (none, e')
          | ok lease ↦ (some (record { lease_response = lease }), e')
        ]
  ]

  unfoldable pub etcd_put_with_ttl : EtcdClient → String → String → E → Result (Unit {0}) × E
  etcd_put_with_ttl cli key value e = d.put key value (some cli.lease_response) e

  unfoldable pub etcd_put : EtcdClient → String → String → E → Result (Unit {0}) × E
  etcd_put cli key value e = d.put key value none e

  unfoldable pub etcd_get_raw : EtcdClient → String → E → Result (Option (GoMap String String))
  unfolding raw_response
  etcd_get_raw cli key e = elim (d.get key e) [ err m ↦ err m | ok kvs ↦ ok (raw_response kvs) ]

  unfoldable pub etcd_get : EtcdClient → String → E → Result (Option (GoMap String String))
  unfolding response_map
  etcd_get cli key e = elim (d.get key e) [ err m ↦ err m | ok kvs ↦ ok (response_map kvs) ]

  unfoldable pub etcd_delete : EtcdClient → String → E → Result (Unit {0}) × E
  etcd_delete cli key e = d.delete key e

  -- One round of the loop of KeepAliveEtcdConnection; an error is only logged.
  pub keep_alive_round : EtcdClient → E → E
  keep_alive_round cli e = (d.keep_alive cli.lease_response e).1
