-- ===== src/Prelude/Lists.antt =====
-- Lists over the native numbers: positions, writes, prefixes, membership tests.
use Prim.Native.Nat.{ℕ, zero, suc, ◌+◌, ◌<◌, ◌≤◌}
use mathlib.Core.Path.{◌≡◌, refl, ap, subst}
use mathlib.Core.Logic.{◌≢◌, inl, inr}
use mathlib.Core.Bool.{Bool, true, false, ◌||◌, false≢true}
use mathlib.Core.List.{List, [], ◌∷◌, ◌++◌, map}
use native.Mathlib.Omega.{arith}
use kvm_service.Prelude.Tests.{Eq, ◌==◌, Bool-cases}

module _ {ℓ} {A : Type ℓ} where
  abbrev pub length : List A → ℕ
  length [] = 0
  length (x ∷ xs) = suc (length xs)

  -- The element at a position, or the default behind the end.
  abbrev pub get_or : List A → ℕ → A → A
  get_or [] i d = d
  get_or (x ∷ xs) zero d = x
  get_or (x ∷ xs) (suc i) d = get_or xs i d

  -- A write out of bounds changes nothing.
  abbrev pub set : List A → ℕ → A → List A
  set [] i v = []
  set (x ∷ xs) zero v = v ∷ xs
  set (x ∷ xs) (suc i) v = x ∷ set xs i v

  abbrev pub take : ℕ → List A → List A
  take zero xs = []
  take (suc n) [] = []
  take (suc n) (x ∷ xs) = x ∷ take n xs

  -- The list without the element at a position.
  abbrev pub remove_at : ℕ → List A → List A
  remove_at i [] = []
  remove_at zero (x ∷ xs) = xs
  remove_at (suc i) (x ∷ xs) = x ∷ remove_at i xs

  abbrev pub last_or : A → List A → A
  last_or d [] = d
  last_or d (x ∷ xs) = last_or x xs

  pub length-set : (xs : List A) (i : ℕ) (v : A) → length (set xs i v) ≡ length xs
  length-set [] i v = refl
  length-set (x ∷ xs) zero v = refl
  length-set (x ∷ xs) (suc i) v = omega (arith, length-set xs i v)

  pub length-append : (xs ys : List A) → length (xs ++ ys) ≡ length xs + length ys
  length-append [] ys = omega arith
  length-append (x ∷ xs) ys = omega (arith, length-append xs ys)

  pub length-take : (n : ℕ) (xs : List A) → n ≤ length xs → length (take n xs) ≡ n
  length-take zero xs h = refl
  length-take (suc n) [] h = absurd (omega arith)
  length-take (suc n) (x ∷ xs) h = omega (arith, length-take n xs (omega arith))

  pub get_or-set_self :
      (xs : List A) (i : ℕ) (d v : A) → i < length xs → get_or (set xs i v) i d ≡ v
  get_or-set_self [] i d v h = absurd (omega arith)
  get_or-set_self (x ∷ xs) zero d v h = refl
  get_or-set_self (x ∷ xs) (suc i) d v h = get_or-set_self xs i d v (omega arith)

  pub get_or-set_other :
      (xs : List A) (i j : ℕ) (d v : A) → i ≢ j → get_or (set xs i v) j d ≡ get_or xs j d
  get_or-set_other [] i j d v n = refl
  get_or-set_other (x ∷ xs) zero zero d v n = absurd (n refl)
  get_or-set_other (x ∷ xs) zero (suc j) d v n = refl
  get_or-set_other (x ∷ xs) (suc i) zero d v n = refl
  get_or-set_other (x ∷ xs) (suc i) (suc j) d v n =
      get_or-set_other xs i j d v (λ e. n (omega arith))

  pub get_or-take :
      (n : ℕ) (xs : List A) (j : ℕ) (d : A) → j < n → get_or (take n xs) j d ≡ get_or xs j d
  get_or-take zero xs j d h = absurd (omega arith)
  get_or-take (suc n) [] j d h = refl
  get_or-take (suc n) (x ∷ xs) zero d h = refl
  get_or-take (suc n) (x ∷ xs) (suc j) d h = get_or-take n xs j d (omega arith)

  abbrev pub All {κ} : (A → Type κ) → List A → Type κ
  All P [] = Unit
  All P (x ∷ xs) = P x × All P xs

  pub All-append {κ} : (P : A → Type κ) (xs ys : List A) → All P xs → All P ys → All P (xs ++ ys)
  All-append P [] ys all all' = all'
  All-append P (x ∷ xs) ys (here, all) all' = (here, All-append P xs ys all all')

  pub All-map {κ μ} :
      (P : A → Type κ) (Q : A → Type μ)
      → ((x : A) → P x → Q x)
      → (xs : List A) → All P xs
      → All Q xs
  All-map P Q f [] all = tt
  All-map P Q f (x ∷ xs) (here, all) = (f x here, All-map P Q f xs all)

pub append_assoc {ℓ} : {A : Type ℓ} (xs ys zs : List A) → (xs ++ ys) ++ zs ≡ xs ++ (ys ++ zs)
append_assoc [] ys zs = refl
append_assoc (x ∷ xs) ys zs = ap (λ l. x ∷ l) (append_assoc xs ys zs)

pub append_nil_right {ℓ} : {A : Type ℓ} (xs : List A) → xs ++ [] ≡ xs
append_nil_right [] = refl
append_nil_right (x ∷ xs) = ap (λ l. x ∷ l) (append_nil_right xs)

pub map-append {ℓ κ} :
    {A : Type ℓ} {B : Type κ} (f : A → B) (xs ys : List A) → map f (xs ++ ys) ≡ map f xs ++ map f ys
map-append f [] ys = refl
map-append f (x ∷ xs) ys = ap (λ l. f x ∷ l) (map-append f xs ys)

module _ {ℓ} {A : Type ℓ} ⦃e : Eq A⦄ where
  -- Whether an element of the list equals the one that is wanted.
  unfoldable pub contains : List A → A → Bool
  contains [] wanted = false
  contains (item ∷ items) wanted = item == wanted || contains items wanted

  pub contains-append :
      (xs ys : List A) (a : A) → contains (xs ++ ys) a ≡ (contains xs a || contains ys a)
  unfolding contains
  contains-append [] ys a = refl
  contains-append (x ∷ xs) ys a = ground (arith, contains-append xs ys a)

  pub contains-singleton : (x a : A) → contains (x ∷ []) a ≡ (x == a)
  unfolding contains
  contains-singleton x a = ground arith

  -- A list holds what stands at one of its positions.
  pub contains-get_or :
      (xs : List A) (i : ℕ) (d : A) → i < length xs → contains xs (get_or xs i d) ≡ true
  unfolding contains
  contains-get_or [] i d h = absurd (omega arith)
  contains-get_or (x ∷ xs) zero d h = ground (arith, e.test_iff x x)
  contains-get_or (x ∷ xs) (suc i) d h = ground (arith, contains-get_or xs i d (omega arith))

  -- What a list holds stands at one of its positions.
  pub position :
      (xs : List A) (a d : A)
      → contains xs a ≡ true
      → (i : ℕ) × (i < length xs) × (get_or xs i d ≡ a)
  unfolding contains
  position [] a d h = absurd (false≢true h)
  position (x ∷ xs) a d h = elim (Bool-cases (x == a)) [
    | inl same ↦ (0, omega arith, (e.test_iff x a).0 same)
    | inr differ ↦
        let (i, below, found) = position xs a d (ground arith) in (suc i, omega arith, found)
  ]

  -- What holds of whatever a list holds, holds of its elements.
  pub All-of_contains {κ} :
      (P : A → Type κ) (xs : List A) → ((a : A) → contains xs a ≡ true → P a) → All P xs
  unfolding contains
  All-of_contains P [] h = tt
  All-of_contains P (x ∷ xs) h = (
    h x (rw ((e.test_iff x x).1 refl)),
    All-of_contains P xs (λ a found. h a (ground (arith, found))),
  )

  -- What holds of the elements of a list, holds of whatever it holds.
  pub All-contains {κ} :
      (P : A → Type κ) (xs : List A) (a : A) → All P xs → contains xs a ≡ true → P a
  unfolding contains
  All-contains P [] a all h = absurd (false≢true h)
  All-contains P (x ∷ xs) a (here, all) h = elim (Bool-cases (x == a)) [
    | inl same ↦ subst P ((e.test_iff x a).0 same) here
    | inr differ ↦ All-contains P xs a all (ground arith)
  ]
