-- ===== src/System/Lists.antt =====
-- The lists of identities in the store and in the operator's memory: every one can be read and has
-- numbers of 16 bits.
use mathlib.Core.Option.{get_or as value_or, some_inj}
use kvm_service.Prelude.{
  ℕ, ◌<◌, ◌^◌, String, List, [], Option, none, some, true, ◌≡◌, refl, sym, subst, ◌∙◌, ◌<>◌, ◌==◌,
  string_eq, starts_with, apart, All, Bool-cases, inl, inr,
}
use kvm_service.Constants.{kvm_opr_label_to_identities}
use kvm_service.Go.Json.{marshal_ids, unmarshal_ids}
use kvm_service.Go.Json.RoundTrip.{unmarshal_ids-marshal_ids, unmarshal_ids-null}
use kvm_service.Etcd.Driver.{Driver, IsLawful, IsHealthy}
use kvm_service.Operator.Labels.Frame.{AllLists, put-AllLists}

abbrev pub Small : List ℕ → Type 0
Small ids = All (λ n. n < 2 ^ 16) ids

-- A text that is read as a list of 16-bit identities, or as null.
pub record IsList (value : String) : Type 0 where
  pub ids : Option (List ℕ)
  pub parsed : unmarshal_ids value ≡ some ids
  pub small : Small (value_or ids [])

abbrev pub AreLists : (String → Option String) → Type 0
AreLists read =
    (key value : String)
    → starts_with key kvm_opr_label_to_identities ≡ true
    → read key ≡ some value
    → IsList value

pub marshal_ids-IsList :
    (ids : Option (List ℕ)) → Small (value_or ids []) → IsList (marshal_ids ids)
marshal_ids-IsList none small = record { ids = none; parsed = unmarshal_ids-null; small = tt }
marshal_ids-IsList (some ids) small = record {
  ids = some ids;
  parsed = unmarshal_ids-marshal_ids ids small;
  small = small;
}

pub AllLists-AreLists :
    (read read' : String → Option String) → AllLists read read' → AreLists read → AreLists read'
AllLists-AreLists read read' same lists key value under stored =
    lists key value under (sym (same key under) ∙ stored)

module _ {E : Type 0} (d : Driver E) (healthy : IsHealthy d) (lawful : IsLawful d) where
  abbrev pub Listed : E → Type 0
  Listed e = AreLists (lawful.read e)

  -- A list is written.
  pub put-Listed :
      (label : String) (ids : Option (List ℕ)) (lease : Option ℕ) (e : E)
      → Small (value_or ids [])
      → Listed e
      → Listed (d.put (kvm_opr_label_to_identities <> label) (marshal_ids ids) lease e).1
  put-Listed label ids lease e small lists key value under stored =
      let place = kvm_opr_label_to_identities <> label in
      let now = lawful.put-read place (marshal_ids ids) lease e key (healthy.put_ok _ _ lease e) in
      elim (Bool-cases (place == key)) [
        | inl here ↦
            let same : some (marshal_ids ids) ≡ some value = sym (now ∙ (rw here refl)) ∙ stored in
            subst IsList (some_inj.0 same) (marshal_ids-IsList ids small)
        | inr other ↦ lists key value under (sym (now ∙ (rw other refl)) ∙ stored)
      ]

  -- Entries are deleted.
  pub delete-Listed : (p : String) (e : E) → Listed e → Listed (d.delete p e).1
  delete-Listed p e lists key value under stored =
      let now = lawful.delete-read p e key (healthy.delete_ok p e) in
      elim (Bool-cases (starts_with key p)) [
        | inl gone ↦ let q : none ≡ some value = sym (now ∙ (rw gone refl)) ∙ stored in cc
        | inr kept ↦ lists key value under (sym (now ∙ (rw kept refl)) ∙ stored)
      ]

  -- A write under another prefix.
  pub put_other-Listed :
      (prefix x value : String) (e : E)
      → apart prefix kvm_opr_label_to_identities ≡ true
      → Listed e
      → Listed (d.put (prefix <> x) value none e).1
  put_other-Listed prefix x value e h lists =
      AllLists-AreLists _ _ (put-AllLists d healthy lawful prefix x value e h) lists
