-- ===== src/Service/Writes.antt =====
-- The service's writes to a healthy store, and its reads from it.
use kvm_service.Prelude.{ℕ, String, Option, none, some, ◌≡◌, GoMap, string_eq}
use kvm_service.Go.Outcome.{done, ok}
use kvm_service.Etcd.Driver.{Driver, IsHealthy}
use kvm_service.Etcd.Client.{etcd_put, etcd_put_with_ttl, etcd_delete, raw_response, response_map}
use kvm_service.Etcd.Laws.{etcd_get-ok, etcd_get_raw-ok}
use kvm_service.Service.State.{Kvms, put_or_fatal, try_delete, try_put_with_ttl}
use kvm_service.Service.Server.{get_or_fatal, get_raw_or_fatal}

module _ {E : Type 0} (d : Driver E) where
  abbrev pub wrote : String → String → Option ℕ → Kvms E → Kvms E
  wrote key value lease s = record s { etcd = (d.put key value lease s.etcd).1 }

  abbrev pub erased : String → Kvms E → Kvms E
  erased key s = record s { etcd = (d.delete key s.etcd).1 }

module _ {E : Type 0} (d : Driver E) (healthy : IsHealthy d) where
  pub put_or_fatal-done :
      (key value : String) (s : Kvms E)
      → put_or_fatal d key value s ≡ done tt (wrote d key value none s)
  unfolding put_or_fatal etcd_put
  put_or_fatal-done key value s = rw (healthy.put_ok key value none s.etcd)

  pub try_put_with_ttl-done :
      (key value : String) (s : Kvms E)
      → try_put_with_ttl d key value s
        ≡ done (ok tt) (wrote d key value (some s.etcd_client.lease_response) s)
  unfolding try_put_with_ttl etcd_put_with_ttl
  try_put_with_ttl-done key value s =
      rw (healthy.put_ok key value (some s.etcd_client.lease_response) s.etcd)

  pub try_delete-done :
      (key : String) (s : Kvms E) → try_delete d key s ≡ done (ok tt) (erased d key s)
  unfolding try_delete etcd_delete
  try_delete-done key s = rw (healthy.delete_ok key s.etcd)

  -- The pairs that the store answers with.
  abbrev pub pairs : String → E → GoMap String String
  pairs p e = (healthy.get_ok p e).0

  pub get_or_fatal-done :
      (p : String) (s : Kvms E) → get_or_fatal d p s ≡ done (response_map (pairs p s.etcd)) s
  unfolding get_or_fatal
  get_or_fatal-done p s =
      rw (etcd_get-ok d s.etcd_client p s.etcd (pairs p s.etcd) (healthy.get_ok p s.etcd).1)

  pub get_raw_or_fatal-done :
      (p : String) (s : Kvms E) → get_raw_or_fatal d p s ≡ done (raw_response (pairs p s.etcd)) s
  unfolding get_raw_or_fatal
  get_raw_or_fatal-done p s =
      rw (etcd_get_raw-ok d s.etcd_client p s.etcd (pairs p s.etcd) (healthy.get_ok p s.etcd).1)
