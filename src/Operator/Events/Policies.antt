-- ===== src/Operator/Events/Policies.antt =====
-- What the handlers do to the names of the listed policies.
use kvm_service.Prelude.{
  and_true, or_true, String, List, [], ◌∷◌, ◌++◌, Option, none, some, Bool, true, false, ◌&&◌, ◌||◌,
  not, ◌≡◌, refl, sym, ◌∙◌, ap, map, ◌==◌, string_eq, contains, contains-append, and_right, arith,
  if◌then◌else◌, ==_cases, ==_of_ne, ==_refl, inl, inr, ◌⊎◌,
}
use text.Mathlib.TextEquality.{eq_iff}
use kvm_service.Types.Workloads.{ExternalWorkloadSecurityPolicy}
use kvm_service.Operator.Events.{behind, deep_equal, replace_policy, remove_policy}

abbrev pub names : List ExternalWorkloadSecurityPolicy → List String
names = map (λ p. p.metadata.name)

abbrev pub Distinct : List String → Type 0
Distinct [] = Unit
Distinct (x ∷ xs) = (contains xs x ≡ false) × Distinct xs

pub names-append :
    (ps : List ExternalWorkloadSecurityPolicy) (p : ExternalWorkloadSecurityPolicy)
    → names (ps ++ p ∷ []) ≡ names ps ++ p.metadata.name ∷ []
names-append [] p = refl
names-append (q ∷ ps) p = ap (λ l. q.metadata.name ∷ l) (names-append ps p)

pub Distinct-append :
    (xs : List String) (x : String) → Distinct xs → contains xs x ≡ false → Distinct (xs ++ x ∷ [])
unfolding contains
Distinct-append [] x h f = (refl, tt)
Distinct-append (y ∷ xs) x (h, t) f = (
  rw contains-append (ground (arith, eq_iff x y, eq_iff y x)),
  Distinct-append xs x t (ground arith),
)

-- A search that succeeds stops here or further on.
pub search_cases :
    (b : Bool) (here qs : List ExternalWorkloadSecurityPolicy) (q : ExternalWorkloadSecurityPolicy)
    (rest : Option (List ExternalWorkloadSecurityPolicy))
    → (if b then some here else behind q rest) ≡ some qs
    → ((b ≡ true) × (here ≡ qs))
      ⊎ ((b ≡ false) × ((r : List ExternalWorkloadSecurityPolicy) × (rest ≡ some r) × (q ∷ r ≡ qs)))
search_cases true here qs q rest h = inl (refl, cc)
search_cases false here qs q none h = cc
search_cases false here qs q (some r) h = inr (refl, (r, refl, cc))

-- A search that fails goes on, and fails.
pub not_behind :
    (b : Bool) (here : List ExternalWorkloadSecurityPolicy) (q : ExternalWorkloadSecurityPolicy)
    (rest : Option (List ExternalWorkloadSecurityPolicy))
    → (if b then some here else behind q rest) ≡ none
    → (b ≡ false) × (rest ≡ none)
not_behind true here q rest h = cc
not_behind false here q none h = (refl, refl)
not_behind false here q (some r) h = cc

pub names-replace_policy :
    (ps qs : List ExternalWorkloadSecurityPolicy) (p : ExternalWorkloadSecurityPolicy)
    → replace_policy ps p ≡ some qs
    → names qs ≡ names ps
unfolding replace_policy
names-replace_policy [] qs p h = cc
names-replace_policy (q ∷ ps) qs p h =
    elim (search_cases (q.metadata.name == p.metadata.name) (p ∷ ps) qs q (replace_policy ps p) h) [
      | inl (same, e) ↦ rw (← e) (ap (λ n. n ∷ names ps) (sym ((eq_iff _ _).0 same)))
      | inr (_, (r, found, e)) ↦
          rw (← e) (ap (λ l. q.metadata.name ∷ l) (names-replace_policy ps r p found))
    ]

-- A policy that is deeply equal has the same name.
pub name-deep_equal :
    (p q : ExternalWorkloadSecurityPolicy)
    → deep_equal p q ≡ true
    → p.metadata.name ≡ q.metadata.name
unfolding deep_equal
name-deep_equal p q h = (eq_iff _ _).0 (and_right _ _ h)

-- A policy that is removed was listed.
pub contains_of_remove_policy :
    (ps qs : List ExternalWorkloadSecurityPolicy) (p : ExternalWorkloadSecurityPolicy)
    → remove_policy ps p ≡ some qs
    → contains (names ps) p.metadata.name ≡ true
unfolding remove_policy contains
contains_of_remove_policy [] qs p h = cc
contains_of_remove_policy (q ∷ ps) qs p h =
    elim (search_cases (deep_equal p q) ps qs q (remove_policy ps p) h) [
      | inl (same, e) ↦ rw (name-deep_equal p q same) (rw (==_refl q.metadata.name))
      | inr (_, (r, found, e)) ↦
          rw (contains_of_remove_policy ps r p found) (or_true (q.metadata.name == p.metadata.name))
    ]

head_removed :
    (x n : String) (xs : List String)
    → contains xs x ≡ false
    → contains xs n ≡ ((x == n || contains xs n) && not (x == n))
head_removed x n xs f = elim (==_cases x n) [
  | inl same ↦ rw (← same, ==_refl x) f
  | inr other ↦ rw (==_of_ne x n other) (sym (and_true (contains xs n)))
]

tail_removed :
    (x n m : String) (xs : List String) (rest : Bool)
    → contains xs x ≡ false
    → contains xs m ≡ true
    → rest ≡ (contains xs n && not (m == n))
    → (x == n || rest) ≡ ((x == n || contains xs n) && not (m == n))
tail_removed x n m xs rest f t e = elim (==_cases x n) [
  | inl same ↦ elim (==_cases m n) [
    | inl hit ↦ cc (f, t, same, hit)
    | inr miss ↦ rw (same, ==_refl n, ==_of_ne m n miss)
  ]
  | inr other ↦ rw (==_of_ne x n other, e)
]

pub contains-remove_policy :
    (ps qs : List ExternalWorkloadSecurityPolicy) (p : ExternalWorkloadSecurityPolicy) (n : String)
    → remove_policy ps p ≡ some qs
    → Distinct (names ps)
    → contains (names qs) n ≡ (contains (names ps) n && not (p.metadata.name == n))
unfolding remove_policy contains
contains-remove_policy [] qs p n h u = cc
contains-remove_policy (q ∷ ps) qs p n h u =
    elim (search_cases (deep_equal p q) ps qs q (remove_policy ps p) h) [
      | inl (same, e) ↦
          let name : p.metadata.name ≡ q.metadata.name = name-deep_equal p q same in
          rw (← e, name) (head_removed q.metadata.name n (names ps) u.0)
      | inr (_, (r, found, e)) ↦
          let ih = contains-remove_policy ps r p n found u.1 in
          let inn = contains_of_remove_policy ps r p found in
          rw (← e) (
            tail_removed q.metadata.name n p.metadata.name (names ps) (contains (names r) n) u.0 inn
              ih)
    ]

pub Distinct-remove_policy :
    (ps qs : List ExternalWorkloadSecurityPolicy) (p : ExternalWorkloadSecurityPolicy)
    → remove_policy ps p ≡ some qs
    → Distinct (names ps)
    → Distinct (names qs)
unfolding remove_policy contains
Distinct-remove_policy [] qs p h u = cc
Distinct-remove_policy (q ∷ ps) qs p h u =
    elim (search_cases (deep_equal p q) ps qs q (remove_policy ps p) h) [
      | inl (same, e) ↦ rw (← e) u.1
      | inr (_, (r, found, e)) ↦ rw (← e) (
        contains-remove_policy ps r p q.metadata.name found u.1 ∙ (rw u.0),
        Distinct-remove_policy ps r p found u.1,
      )
    ]
