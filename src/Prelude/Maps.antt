-- ===== src/Prelude/Maps.antt =====
-- Go's maps as association lists. A key stands once, in the order of its first write; code that
-- ranges over a map is given the entries in the order of that run.
use mathlib.Core.Path.{◌≡◌, refl, sym, ◌∙◌, subst}
use mathlib.Core.Option.{Option, none, some, some_inj}
use mathlib.Core.List.{List, [], ◌∷◌, map}
use native.Mathlib.Omega.{arith}
use mathlib.Core.Logic.{◌≢◌, ◌⊎◌, inl, inr}
use mathlib.Core.Bool.{true, false}
use kvm_service.Prelude.Lists.{All, All-map}
use kvm_service.Prelude.Tests.{Eq, ◌==◌, if◌then◌else◌, ==_cases, ==_refl, ==_of_ne, Bool-cases}

abbrev pub GoMap {ℓ κ} : Type ℓ → Type κ → Type (ℓ ⊔ κ)
GoMap K V = List (K × V)

module _ {ℓ κ} {K : Type ℓ} {V : Type κ} ⦃e : Eq K⦄ where
  -- `v, ok := m[k]`
  unfoldable pub lookup : K → GoMap K V → Option V
  lookup asked [] = none
  lookup asked ((k, held) ∷ entries) = if k == asked then some held else lookup asked entries

  -- `m[k] = v`
  unfoldable pub insert : K → V → GoMap K V → GoMap K V
  insert key new [] = (key, new) ∷ []
  insert key new ((k, old) ∷ entries) =
      if k == key then (key, new) ∷ entries else (k, old) ∷ insert key new entries

  -- `delete(m, k)`
  unfoldable pub delete : K → GoMap K V → GoMap K V
  delete k [] = []
  delete k ((j, v) ∷ m) = let rest = delete k m in if j == k then rest else (j, v) ∷ rest

  -- A read after a write.
  pub lookup-insert :
      (written asked : K) (new : V) (entries : GoMap K V)
      → lookup asked (insert written new entries)
        ≡ (if written == asked then some new else lookup asked entries)
  unfolding lookup insert
  lookup-insert written asked new [] = refl
  lookup-insert written asked new ((k, old) ∷ entries) = ground (
    arith,
    e.test_iff written asked,
    e.test_iff k written,
    e.test_iff k asked,
    lookup-insert written asked new entries,
  )

  pub lookup-delete :
      (k j : K) (m : GoMap K V) → lookup j (delete k m) ≡ (if k == j then none else lookup j m)
  unfolding lookup delete
  lookup-delete k j [] = ground arith
  lookup-delete k j ((i, w) ∷ m) =
      ground (arith, e.test_iff k j, e.test_iff i k, e.test_iff i j, lookup-delete k j m)

  -- Every key stands once.
  abbrev pub HasDistinctKeys : GoMap K V → Type κ
  HasDistinctKeys [] = Unit
  HasDistinctKeys ((k, v) ∷ m) = (lookup k m ≡ none) × HasDistinctKeys m

  pub delete-HasDistinctKeys :
      (k : K) (m : GoMap K V) → HasDistinctKeys m → HasDistinctKeys (delete k m)
  unfolding delete
  delete-HasDistinctKeys k [] h = tt
  delete-HasDistinctKeys k ((j, v) ∷ m) (h, t) =
      ground (arith, delete-HasDistinctKeys k m t, lookup-delete k j m)

  -- A map with one key is one entry.
  pub map-single :
      (k : K) (v : V) (m : GoMap K V)
      → HasDistinctKeys m
      → lookup k m ≡ some v
      → ((j : K) → j ≢ k → lookup j m ≡ none)
      → m ≡ (k, v) ∷ []
  unfolding lookup
  map-single k v [] h here other = cc
  map-single k v ((i, w) ∷ []) h here other = elim (==_cases i k) [
    | inl same ↦ let q : w ≡ v = some_inj.0 (rw (same, ==_refl k) at here) in rw (same, q) refl
    | inr differ ↦ let q : none ≡ some v = rw (==_of_ne i k differ) at here in cc
  ]
  map-single k v ((i, w) ∷ (j, u) ∷ m) (first, h) here other = elim (==_cases j k) [
    | inl same ↦ elim (==_cases i k) [
      | inl same' ↦ let q : some u ≡ none = rw (same, same', ==_refl k) at first in cc
      | inr differ ↦ let q : some w ≡ none = rw (==_refl i) at (other i differ) in cc
    ]
    | inr differ ↦ absurd (taken (Bool-cases (i == j)) (other j differ))
  ]
    where
      taken : ((i == j) ≡ true) ⊎ ((i == j) ≡ false) → lookup j ((i, w) ∷ (j, u) ∷ m) ≢ none
      taken (inl e) n = let q : some w ≡ none = rw e at n in cc
      taken (inr e) n = let q : some u ≡ none = rw (e, ==_refl j) at n in cc

  pub map-empty : (m : GoMap K V) → ((j : K) → lookup j m ≡ none) → m ≡ []
  unfolding lookup
  map-empty [] h = refl
  map-empty ((k, v) ∷ m) h = let q : some v ≡ none = rw (==_refl k) at (h k) in cc

  -- Where every key stands once, each entry is what its key reads.
  pub lookup-entries : (m : GoMap K V) → HasDistinctKeys m → All (λ (k, v). lookup k m ≡ some v) m
  unfolding lookup
  lookup-entries [] h = tt
  lookup-entries ((k, v) ∷ m) (first, h) =
      (rw (==_refl k) refl, All-map _ _ behind m (lookup-entries m h))
    where
      behind :
          (entry : K × V)
          → lookup entry.0 m ≡ some entry.1
          → lookup entry.0 ((k, v) ∷ m) ≡ some entry.1
      behind (j, u) here = elim (==_cases k j) [
        | inl same ↦ let q : none ≡ some u = sym first ∙ (rw same here) in cc
        | inr differ ↦ rw (==_of_ne k j differ) here
      ]

  -- What holds of every entry holds of what is looked up.
  pub All-lookup {ν} :
      (P : K × V → Type ν) (k : K) (v : V) (m : GoMap K V)
      → All P m
      → lookup k m ≡ some v
      → P (k, v)
  unfolding lookup
  All-lookup P k v [] all h = cc
  All-lookup P k v ((j, u) ∷ m) (here, all) h = elim (==_cases j k) [
    | inl same ↦
        let q : u ≡ v = some_inj.0 (rw (same, ==_refl k) at h) in
        subst (λ x. P (k, x)) q (subst (λ x. P (x, u)) same here)
    | inr differ ↦ All-lookup P k v m all (rw (==_of_ne j k differ) at h)
  ]

pub ruleset map_laws = (lookup-insert, lookup-delete)

abbrev pub keys {ℓ κ} : {K : Type ℓ} {V : Type κ} → GoMap K V → List K
keys = map (λ (k, _). k)

-- The first value that there is.
abbrev pub or_else {ℓ} : {A : Type ℓ} → Option A → Option A → Option A
or_else none y = y
or_else (some x) y = some x

pub or_else-none {ℓ} : {A : Type ℓ} (o : Option A) → or_else o none ≡ o
or_else-none none = refl
or_else-none (some x) = refl
