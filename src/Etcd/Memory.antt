-- ===== src/Etcd/Memory.antt =====
-- A store in memory that meets the laws: the assumptions about etcd can hold.
use kvm_service.Prelude.{
  String, [], ◌∷◌, none, ◌≡◌, refl, GoMap, lookup, insert, lookup-insert, lookup-delete, delete,
  HasDistinctKeys, delete-HasDistinctKeys, Bool-cases, inl, inr, ==_refl, ◌∙◌, starts_with,
  string_eq, if◌then◌else◌, arith,
}
use text.Mathlib.TextEquality.{eq_iff}
use kvm_service.Go.Outcome.{ok}
use kvm_service.Etcd.Driver.{Driver, IsLawful, IsHealthy}

unfoldable pub without : String → GoMap String String → GoMap String String
without p [] = []
without p ((k, v) ∷ m) = let rest = without p m in if starts_with k p then rest else (k, v) ∷ rest

unfoldable pub under : String → GoMap String String → GoMap String String
under p [] = []
under p ((k, v) ∷ m) =
    let rest = under p m in if starts_with k p then (k, v) ∷ delete k rest else rest

pub lookup-without :
    (p j : String) (m : GoMap String String)
    → lookup j (without p m) ≡ (if starts_with j p then none else lookup j m)
unfolding without lookup
lookup-without p j [] = ground arith
lookup-without p j ((k, v) ∷ m) = ground (arith, lookup-without p j m, eq_iff k j)

pub lookup-under :
    (p j : String) (m : GoMap String String)
    → lookup j (under p m) ≡ (if starts_with j p then lookup j m else none)
unfolding under lookup
lookup-under p j [] = ground arith
lookup-under p j ((k, v) ∷ m) =
    ground (arith, lookup-under p j m, lookup-delete k j (under p m), eq_iff k j)

pub under-HasDistinctKeys : (p : String) (m : GoMap String String) → HasDistinctKeys (under p m)
unfolding under
under-HasDistinctKeys p [] = tt
under-HasDistinctKeys p ((k, v) ∷ m) =
    let ih = under-HasDistinctKeys p m in
    elim (Bool-cases (starts_with k p)) [
      | inl taken ↦ rw taken (
        (lookup-delete k k (under p m)) ∙ (rw (==_refl k)),
        delete-HasDistinctKeys k (under p m) ih,
      )
      | inr left ↦ rw left ih
    ]

abbrev pub memory : Driver (GoMap String String)
memory = record {
  put = λ k v lease m. (ok tt, insert k v m);
  get = λ p m. ok (under p m);
  delete = λ p m. (ok tt, without p m);
  connect = λ endpoint m. ok tt;
  grant = λ ttl m. (ok 7, m);
  keep_alive = λ lease m. (ok tt, m);
}

unfoldable pub memory-IsLawful : IsLawful memory
memory-IsLawful = record {
  read = λ m j. lookup j m;
  put-read = λ k v lease m j _. lookup-insert k j v m;
  delete-read = λ p m j _. lookup-without p j m;
  get-read = λ p m kvs j e. let q : under p m ≡ kvs = cc in rw (← q) (lookup-under p j m);
  get-distinct = λ p m kvs e. let q : under p m ≡ kvs = cc in rw (← q) (under-HasDistinctKeys p m);
}

pub memory-IsHealthy : IsHealthy memory
memory-IsHealthy = record {
  put_ok = λ k v lease m. refl;
  delete_ok = λ p m. refl;
  get_ok = λ p m. (under p m, refl);
}
