-- ===== src/Etcd/Laws.antt =====
-- What the client's reads return, from what etcd promises.
use kvm_service.Prelude.{
  or_else-none, String, [], ◌∷◌, Option, none, some, ◌≡◌, refl, ◌∙◌, GoMap, lookup, insert,
  lookup-insert, HasDistinctKeys, or_else, inl, inr, ==_cases, ==_of_ne, starts_with, string_eq,
  if◌then◌else◌, ==_refl,
}
use kvm_service.Go.Outcome.{ok}
use kvm_service.Etcd.Driver.{Driver, IsLawful}
use kvm_service.Etcd.Client.{
  EtcdClient, key_value_pairs, response_map, raw_response, etcd_get, etcd_get_raw,
}

-- A Go map that may be nil reads as empty.
abbrev pub lookup_nil : String → Option (GoMap String String) → Option String
lookup_nil k none = none
lookup_nil k (some m) = lookup k m

-- The pairs of a response with distinct keys, as a map, read as the response does.
lookup-key_value_pairs :
    (pairs kvs : GoMap String String) (k : String)
    → HasDistinctKeys kvs
    → lookup k (key_value_pairs pairs kvs) ≡ or_else (lookup k kvs) (lookup k pairs)
unfolding key_value_pairs lookup
lookup-key_value_pairs pairs [] k h = refl
lookup-key_value_pairs pairs ((j, v) ∷ kvs) k (h, t) =
    lookup-key_value_pairs (insert j v pairs) kvs k t
    ∙ (rw lookup-insert (elim (==_cases j k) [
      | inl same ↦ let q : lookup k kvs ≡ none = rw (← same) h in rw (q, same, ==_refl k)
      | inr other ↦ rw (==_of_ne j k other)
    ]))

pub lookup_nil-response_map :
    (kvs : GoMap String String) (k : String)
    → HasDistinctKeys kvs
    → lookup_nil k (response_map kvs) ≡ lookup k kvs
unfolding response_map lookup
lookup_nil-response_map [] k h = refl
lookup_nil-response_map (kv ∷ kvs) k h =
    lookup-key_value_pairs [] (kv ∷ kvs) k h ∙ or_else-none (lookup k (kv ∷ kvs))

pub lookup_nil-raw_response :
    (kvs : GoMap String String) (k : String) → lookup_nil k (raw_response kvs) ≡ lookup k kvs
unfolding raw_response lookup
lookup_nil-raw_response [] k = refl
lookup_nil-raw_response (kv ∷ kvs) k = refl

module _ {E : Type 0} (d : Driver E) (cli : EtcdClient) (p : String) (e : E)
    (kvs : GoMap String String) (answer : d.get p e ≡ ok kvs) where
  pub etcd_get-ok : etcd_get d cli p e ≡ ok (response_map kvs)
  unfolding etcd_get
  etcd_get-ok = rw (answer, etcd_get)

  pub etcd_get_raw-ok : etcd_get_raw d cli p e ≡ ok (raw_response kvs)
  unfolding etcd_get_raw
  etcd_get_raw-ok = rw (answer, etcd_get_raw)

module _ {E : Type 0} (d : Driver E) (l : IsLawful d) (p : String) (e : E)
    (kvs : GoMap String String) (answer : d.get p e ≡ ok kvs) where
  -- Both reads return the contents under the prefix.
  pub lookup-etcd_get :
      (k : String)
      → lookup_nil k (response_map kvs) ≡ (if starts_with k p then l.read e k else none)
  lookup-etcd_get k =
      lookup_nil-response_map kvs k (l.get-distinct p e kvs answer) ∙ l.get-read p e kvs k answer

  pub lookup-etcd_get_raw :
      (k : String)
      → lookup_nil k (raw_response kvs) ≡ (if starts_with k p then l.read e k else none)
  lookup-etcd_get_raw k = lookup_nil-raw_response kvs k ∙ l.get-read p e kvs k answer
