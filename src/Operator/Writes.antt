-- ===== src/Operator/Writes.antt =====
-- The operator's writes to etcd: what they leave alone whether or not they succeed, and what they
-- do to the contents of a healthy store.
use kvm_service.Prelude.{String, none, some, ◌≡◌, starts_with, ◌==◌, string_eq, if◌then◌else◌}
use kvm_service.Go.Outcome.{done, Returns}
use kvm_service.Go.Outcome.Rules.{Returns-fatal_on}
use kvm_service.Etcd.Driver.{Driver, IsLawful, IsHealthy}
use kvm_service.Etcd.Client.{etcd_put, etcd_delete}
use kvm_service.Operator.State.{Operator, put_or_fatal, delete_or_fatal}

module _ {E : Type 0} (d : Driver E) where
  -- The state after a put, and after a delete.
  abbrev pub wrote : String → String → Operator E → Operator E
  wrote key value s = record s { etcd = (d.put key value none s.etcd).1 }

  abbrev pub erased : String → Operator E → Operator E
  erased key s = record s { etcd = (d.delete key s.etcd).1 }

  pub Returns-put :
      (P : Operator E → Type 0) (key value : String) (s : Operator E)
      → P (wrote key value s)
      → Returns (λ _ s'. P s') (put_or_fatal d key value s)
  unfolding put_or_fatal etcd_put
  Returns-put P key value s h =
      Returns-fatal_on (λ _ s'. P s') (d.put key value none s.etcd).0 _ (λ _. h)

  pub Returns-delete :
      (P : Operator E → Type 0) (key : String) (s : Operator E)
      → P (erased key s)
      → Returns (λ _ s'. P s') (delete_or_fatal d key s)
  unfolding delete_or_fatal etcd_delete
  Returns-delete P key s h = Returns-fatal_on (λ _ s'. P s') (d.delete key s.etcd).0 _ (λ _. h)

module _ {E : Type 0} (d : Driver E) (healthy : IsHealthy d) where
  pub put_or_fatal-done :
      (key value : String) (s : Operator E)
      → put_or_fatal d key value s ≡ done tt (wrote d key value s)
  unfolding put_or_fatal etcd_put
  put_or_fatal-done key value s = rw (healthy.put_ok key value none s.etcd)

  pub delete_or_fatal-done :
      (key : String) (s : Operator E) → delete_or_fatal d key s ≡ done tt (erased d key s)
  unfolding delete_or_fatal etcd_delete
  delete_or_fatal-done key s = rw (healthy.delete_ok key s.etcd)

module _ {E : Type 0} (d : Driver E) (healthy : IsHealthy d) (lawful : IsLawful d) where
  pub read-put :
      (key value : String) (e : E) (j : String)
      → lawful.read (d.put key value none e).1 j
        ≡ (if key == j then some value else lawful.read e j)
  read-put key value e j = lawful.put-read key value none e j (healthy.put_ok key value none e)

  pub read-delete :
      (key : String) (e : E) (j : String)
      → lawful.read (d.delete key e).1 j ≡ (if starts_with j key then none else lawful.read e j)
  read-delete key e j = lawful.delete-read key e j (healthy.delete_ok key e)
