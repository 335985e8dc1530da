-- ===== src/Etcd/Entries.antt =====
-- What holds of every pair of a response (src/etcd/etcdClient.go) holds of every entry of its map.
use mathlib.Core.Option.{get_or as value_or}
use kvm_service.Prelude.{
  String, [], ◌∷◌, some, ◌≡◌, ◌≢◌, GoMap, lookup, insert, All, ◌==◌, string_eq, Bool-cases, inl,
  inr,
}
use kvm_service.Etcd.Client.{key_value_pairs, response_map}

pub not_empty : (k v : String) (m : GoMap String String) → lookup k m ≡ some v → m ≢ []
unfolding lookup
not_empty k v [] found h = cc
not_empty k v (kv ∷ m) found h = cc

All-insert :
    (P : String × String → Type 0) (k v : String) (m : GoMap String String)
    → P (k, v)
    → All P m
    → All P (insert k v m)
unfolding insert
All-insert P k v [] p all = (p, tt)
All-insert P k v ((j, w) ∷ m) p (here, all) = elim (Bool-cases (j == k)) [
  | inl same ↦ rw same (p, all)
  | inr other ↦ rw other (here, All-insert P k v m p all)
]

All-key_value_pairs :
    (P : String × String → Type 0) (acc kvs : GoMap String String)
    → All P acc
    → All P kvs
    → All P (key_value_pairs acc kvs)
unfolding key_value_pairs
All-key_value_pairs P acc [] all all' = all
All-key_value_pairs P acc ((k, v) ∷ kvs) all (here, all') =
    All-key_value_pairs P (insert k v acc) kvs (All-insert P k v acc here all) all'

pub All-response_map :
    (P : String × String → Type 0) (kvs : GoMap String String)
    → All P kvs
    → All P (value_or (response_map kvs) [])
unfolding response_map
All-response_map P [] all = tt
All-response_map P (kv ∷ kvs) all = All-key_value_pairs P [] (kv ∷ kvs) tt all
