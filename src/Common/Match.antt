-- ===== src/Common/Match.antt =====
-- ContainsElement at strings, MatchIdentities, and Clone.
use kvm_service.Prelude.{
  String, List, [], ◌∷◌, Bool, true, false, ◌≡◌, ◌≢◌, ◌↔◌, refl, ◌==◌, string_eq, if◌then◌else◌,
  contains, All, arith,
}
use kvm_service.Go.Outcome.{Result}

-- `reflect.DeepEqual` on strings is `==`; the loop returns at the first element that is equal.
unfoldable pub contains_element : List String → String → Bool
contains_element [] element = false
contains_element (val ∷ slice) element =
    if val == element then true else contains_element slice element

-- The loop of MatchIdentities, which breaks at the first identity that is missing.
match_loop : List String → List String → Bool
match_loop [] super_identities = true
match_loop (identity ∷ identities) super_identities =
    if contains_element super_identities identity
    then match_loop identities super_identities
    else false

unfoldable pub match_identities : List String → List String → Bool
unfolding match_loop
match_identities [] super_identities = false
match_identities (identity ∷ identities) super_identities =
    match_loop (identity ∷ identities) super_identities

-- encoding/json at one type: its writer and its reader.
pub record JsonCodec (A : Type 0) : Type 0 where
  pub marshal : A → String
  pub unmarshal : String → Result A

-- Clone writes the source and reads the destination back.
unfoldable pub clone : {A : Type 0} → JsonCodec A → A → Result A
clone json src = json.unmarshal (json.marshal src)

pub contains_element-contains :
    (slice : List String) (element : String)
    → contains_element slice element ≡ contains slice element
unfolding contains_element contains
contains_element-contains [] element = refl
contains_element-contains (val ∷ slice) element =
    ground (arith, contains_element-contains slice element)

match_loop_iff :
    (identities super_identities : List String)
    → (match_loop identities super_identities ≡ true)
      ↔ All (λ i. contains super_identities i ≡ true) identities
unfolding match_loop
match_loop_iff [] super_identities = (λ _. tt, λ _. refl)
match_loop_iff (i ∷ identities) super_identities =
    rw (contains_element-contains super_identities i)
      (ground (arith, match_loop_iff identities super_identities))

-- MatchIdentities holds exactly of a nonempty list each of whose elements the other list has.
pub match_identities_iff :
    (identities super_identities : List String)
    → (match_identities identities super_identities ≡ true)
      ↔ ((identities ≢ []) × All (λ i. contains super_identities i ≡ true) identities)
unfolding match_identities
match_identities_iff [] super_identities = (λ h. cc, λ h. absurd (h.0 refl))
match_identities_iff (i ∷ identities) super_identities =
    let e = match_loop_iff (i ∷ identities) super_identities in
    (λ h. (λ p. cc, e.0 h), λ h. e.1 h.1)
