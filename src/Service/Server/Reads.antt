-- ===== src/Service/Server/Reads.antt =====
-- What the tests of the server on a map that etcd returned tell of the contents of the store.
use mathlib.Core.Option.{get_or as value_or}
use kvm_service.Prelude.{
  String, [], ◌∷◌, Option, none, some, Bool, true, false, ◌≡◌, ◌≢◌, refl, sym, ◌∙◌, ap, inl, inr,
  GoMap, lookup, starts_with, ◌==◌, string_eq, if◌then◌else◌, Bool-cases, ==_cases, ==_refl,
  ==_of_ne,
}
use kvm_service.Etcd.Laws.{lookup_nil}
use kvm_service.Service.Server.{is_empty, some_key_ends, last_of_key}

-- Nothing is stored under the prefix.
abbrev pub IsBare : (String → Option String) → String → Type 0
IsBare read p = (key : String) → starts_with key p ≡ true → read key ≡ none

-- Something is stored under the prefix.
pub record IsTaken (read : String → Option String) (p : String) : Type 0 where
  pub key : String
  pub value : String
  pub under : starts_with key p ≡ true
  pub stored : read key ≡ some value

-- A key under the prefix is stored whose last part is the identity.
pub record IsKnown (read : String → Option String) (p identity : String) : Type 0 where
  pub key : String
  pub value : String
  pub under : starts_with key p ≡ true
  pub stored : read key ≡ some value
  pub ends : last_of_key key ≡ identity

key_ends-found :
    (m : GoMap String String) (identity : String)
    → some_key_ends m identity ≡ true
    → (key : String) × ((value : String) × ((lookup key m ≡ some value)
          × (last_of_key key ≡ identity)))
unfolding some_key_ends lookup
key_ends-found [] identity h = cc
key_ends-found ((k, v) ∷ m) identity h = elim (==_cases (last_of_key k) identity) [
  | inl e ↦ (k, (v, (rw (==_refl k) refl, e)))
  | inr ne ↦
      let t : some_key_ends m identity ≡ true = sym (rw (==_of_ne _ _ ne) refl) ∙ h in
      let (key, (value, (found, e))) = key_ends-found m identity t in
      elim (Bool-cases (k == key)) [
        | inl same ↦ (key, (v, (rw same refl, e)))
        | inr other ↦ (key, (value, (rw other found, e)))
      ]
]

key_ends-absent :
    (m : GoMap String String) (identity key value : String)
    → some_key_ends m identity ≡ false
    → lookup key m ≡ some value
    → last_of_key key ≢ identity
unfolding some_key_ends lookup
key_ends-absent [] identity key value h found e = cc
key_ends-absent ((k, v) ∷ m) identity key value h found e =
    elim (==_cases (last_of_key k) identity) [
      | inl ends ↦
          let q : some_key_ends ((k, v) ∷ m) identity ≡ true = rw (ends, ==_refl identity) refl in
          cc
      | inr ne ↦
          let t : some_key_ends m identity ≡ false = sym (rw (==_of_ne _ _ ne) refl) ∙ h in
          elim (==_cases k key) [
            | inl same ↦ ne (ap last_of_key same ∙ e)
            | inr other ↦
                key_ends-absent m identity key value t
                  (sym (rw (==_of_ne k key other) refl) ∙ found) e
          ]
    ]

if_true : {A : Type 0} (b : Bool) (x y : A) → b ≡ true → (if b then x else y) ≡ x
if_true b x y h = rw h refl

lookup_nil-value_or :
    (m : Option (GoMap String String)) (k : String) → lookup_nil k m ≡ lookup k (value_or m [])
unfolding lookup
lookup_nil-value_or none k = refl
lookup_nil-value_or (some m) k = refl

empty_lookup :
    (m : Option (GoMap String String)) (k : String) → is_empty m ≡ true → lookup_nil k m ≡ none
unfolding lookup
empty_lookup none k h = refl
empty_lookup (some []) k h = refl
empty_lookup (some (kv ∷ m)) k h = cc

head_lookup :
    (m : Option (GoMap String String))
    → is_empty m ≡ false
    → (key : String) × ((value : String) × (lookup_nil key m ≡ some value))
unfolding lookup
head_lookup none h = cc
head_lookup (some []) h = cc
head_lookup (some ((k, v) ∷ m)) h = (k, (v, rw (==_refl k) refl))

module _ (read : String → Option String) (p : String) (m : Option (GoMap String String))
    (answers : (k : String) → lookup_nil k m ≡ (if starts_with k p then read k else none)) where
  pub read-of_lookup :
      (key value : String)
      → lookup_nil key m ≡ some value
      → (starts_with key p ≡ true) × (read key ≡ some value)
  read-of_lookup key value found = elim (Bool-cases (starts_with key p)) [
    | inl h ↦ (h, sym (if_true _ _ _ h) ∙ sym (answers key) ∙ found)
    | inr h ↦ let q : lookup_nil key m ≡ none = answers key ∙ (rw h refl) in cc
  ]

  lookup-of_read :
      (key value : String)
      → starts_with key p ≡ true
      → read key ≡ some value
      → lookup_nil key m ≡ some value
  lookup-of_read key value h stored = answers key ∙ if_true _ _ _ h ∙ stored

  pub is_empty-IsBare : is_empty m ≡ true → IsBare read p
  is_empty-IsBare h key under = sym (if_true _ _ _ under) ∙ sym (answers key) ∙ empty_lookup m key h

  pub is_empty-IsTaken : is_empty m ≡ false → IsTaken read p
  is_empty-IsTaken h =
      let (key, (value, found)) = head_lookup m h in
      let (under, stored) = read-of_lookup key value found in
      record { key = key; value = value; under = under; stored = stored }

  pub key_ends-IsKnown :
      (identity : String) → some_key_ends (value_or m []) identity ≡ true → IsKnown read p identity
  key_ends-IsKnown identity h =
      let (key, (value, (found, ends))) = key_ends-found (value_or m []) identity h in
      let (under, stored) = read-of_lookup key value (lookup_nil-value_or m key ∙ found) in
      record { key = key; value = value; under = under; stored = stored; ends = ends }

  pub key_ends-not_IsKnown :
      (identity : String)
      → some_key_ends (value_or m []) identity ≡ false
      → IsKnown read p identity
      → ⊥
  key_ends-not_IsKnown identity h known =
      key_ends-absent (value_or m []) identity known.key known.value h
        (sym (lookup_nil-value_or m known.key)
          ∙ lookup-of_read known.key known.value known.under known.stored)
        known.ends
