-- ===== src/Etcd/Driver.antt =====
-- The calls of the etcd library `clientv3` that the client makes, and what they promise.
use kvm_service.Prelude.{
  ℕ, String, Option, none, some, ◌≡◌, GoMap, HasDistinctKeys, lookup, starts_with, ◌==◌, string_eq,
  if◌then◌else◌,
}
use kvm_service.Go.Outcome.{Result, ok}

-- A call may fail and change the cluster all the same, so the state comes back beside the error.
pub record Driver (E : Type 0) : Type 0 where
  -- `Put(ctx, key, value)`, with `WithLease(id)` where a lease is given
  pub put : String → String → Option ℕ → E → Result (Unit {0}) × E
  -- `Get(ctx, key, WithPrefix())`: the key-value pairs in the order of the response
  pub get : String → E → Result (GoMap String String)
  -- `Delete(ctx, key, WithPrefix())`
  pub delete : String → E → Result (Unit {0}) × E
  -- `New(config)` for a list of endpoints
  pub connect : String → E → Result (Unit {0})
  -- `Grant(ctx, ttl)`: the id of a new lease
  pub grant : ℕ → E → Result ℕ × E
  -- `KeepAlive(ctx, id)`
  pub keep_alive : ℕ → E → Result (Unit {0}) × E

-- What the calls that succeed do to the contents of the store.
pub record IsLawful {E : Type 0} (d : Driver E) : Type 0 where
  pub read : E → String → Option String
  pub put-read :
      (k v : String) (lease : Option ℕ) (e : E) (j : String)
      → (d.put k v lease e).0 ≡ ok tt
      → read (d.put k v lease e).1 j ≡ (if k == j then some v else read e j)
  pub delete-read :
      (p : String) (e : E) (j : String)
      → (d.delete p e).0 ≡ ok tt
      → read (d.delete p e).1 j ≡ (if starts_with j p then none else read e j)
  pub get-read :
      (p : String) (e : E) (kvs : GoMap String String) (j : String)
      → d.get p e ≡ ok kvs
      → lookup j kvs ≡ (if starts_with j p then read e j else none)
  pub get-distinct :
      (p : String) (e : E) (kvs : GoMap String String) → d.get p e ≡ ok kvs → HasDistinctKeys kvs

-- A cluster that answers every call on the contents.
pub record IsHealthy {E : Type 0} (d : Driver E) : Type 0 where
  pub put_ok : (k v : String) (lease : Option ℕ) (e : E) → (d.put k v lease e).0 ≡ ok tt
  pub delete_ok : (p : String) (e : E) → (d.delete p e).0 ≡ ok tt
  pub get_ok : (p : String) (e : E) → (kvs : GoMap String String) × (d.get p e ≡ ok kvs)
